-- ===== src/Page/Bounds.antt =====
-- The pages that `page_info` lets through.
use readflex.Prelude.{ℕ, suc, ◌*◌, ◌≤◌, ◌<◌, ◌≡◌, ◌↔◌, ℤ, pos, pos_part, ◌≤ℤ◌, arith, false}
use readflex.Failure.{ok, >>=-eq-ok, reject, reject-ok, bad_page}
use readflex.Page.{
  Status, job_ok, PageInfo, Pages, max_source_pixels, check_page, is_bad_page, info_wait, page_info,
}

-- An index of a page of the document.
pub record IsPage (doc : Pages) (index : ℤ) (i : ℕ) : Type 0 where
  pub is_index : index ≡ pos i
  pub below : pos (suc i) ≤ℤ doc.page_count

-- A page of some size, and of no more pixels than the limit.
pub record IsSized (info : PageInfo) (w h : ℕ) : Type 0 where
  pub is_width : info.width ≡ pos w
  pub is_height : info.height ≡ pos h
  pub width_pos : 0 < w
  pub height_pos : 0 < h
  pub area_le : w * h ≤ max_source_pixels

check_page-IsPage :
    (doc : Pages) (index : ℤ) → check_page doc index ≡ ok tt → (i : ℕ) × IsPage doc index i
unfolding check_page
check_page-IsPage doc index h = (pos_part index, ground arith)

IsPage-check_page :
    (doc : Pages) (index : ℤ) {i : ℕ} → IsPage doc index i → check_page doc index ≡ ok tt
unfolding check_page
IsPage-check_page doc index p = ground arith

is_bad_page-IsSized :
    (s : Status) (info : PageInfo)
    → is_bad_page s info ≡ false
    → (s ≡ job_ok) × ((w : ℕ) × (h : ℕ) × IsSized info w h)
unfolding is_bad_page
is_bad_page-IsSized s info e = (ground arith, (pos_part info.width, pos_part info.height, sized))
  where
    sized : IsSized info (pos_part info.width) (pos_part info.height)
    sized = ground arith

IsSized-is_bad_page :
    (info : PageInfo) {w h : ℕ} → IsSized info w h → is_bad_page job_ok info ≡ false
unfolding is_bad_page
IsSized-is_bad_page info z = ground arith

-- `page_info` returns a page exactly if the index is one of the document's, the wait ends with a job
-- that succeeded, and the page has a size, of at most 100 million pixels.
pub page_info_iff :
    (doc : Pages) (index : ℤ) (info : PageInfo)
    → (page_info doc index ≡ ok info) ↔ (
        ((i : ℕ) × IsPage doc index i)
        × (info_wait doc index ≡ ok (job_ok, info))
        × ((w : ℕ) × (h : ℕ) × IsSized info w h))
unfolding page_info
page_info_iff doc index info = (to, from)
  where
    to :
        page_info doc index ≡ ok info
        → ((i : ℕ) × IsPage doc index i)
          × (info_wait doc index ≡ ok (job_ok, info))
          × ((w : ℕ) × (h : ℕ) × IsSized info w h)
    to e =
        let (_, checked, e1) = >>=-eq-ok (check_page doc index) _ e in
        let ((s, got), answered, e2) = >>=-eq-ok (info_wait doc index) _ e1 in
        let (_, good, e3) = >>=-eq-ok (reject (is_bad_page s got) bad_page) _ e2 in
        let (is_done, sized) = is_bad_page-IsSized s got (reject-ok _ bad_page good) in
        let same : got ≡ info = ground arith in
        (check_page-IsPage doc index checked, ground arith, rw same at sized)

    from :
        ((i : ℕ) × IsPage doc index i)
          × (info_wait doc index ≡ ok (job_ok, info))
          × ((w : ℕ) × (h : ℕ) × IsSized info w h)
        → page_info doc index ≡ ok info
    from (p, answered, z) =
        rw (page_info, IsPage-check_page doc index p.1, answered, IsSized-is_bad_page info z.2)
