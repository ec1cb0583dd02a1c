-- ===== src/Page.antt =====
-- `check_page`, `page_info` and `oriented_size` of pagecraft_djvu.cpp. What the decoder answers is
-- a parameter: its page count, and the polls of `ddjvu_document_get_pageinfo` for each page.
pub mod Bounds
pub mod Tests
pub mod Named
use readflex.Prelude.{
  ℕ, zero, suc, ◌≤◌, Bool, true, false, not, ◌||◌, ℤ, pos, negsuc, ◌*ℤ◌, pos_part, leb_ℤ, ltb_ℤ,
  leb,
}
use readflex.Failure.{Result, ok, err, ◌>>=◌, ◌>>◌, reject, page_out_of_range, bad_page}
use readflex.Wait.{Polls, until, wait_for}

-- `ddjvu_status_t`, in its order.
pub data Status : Type 0 where
  job_notstarted job_started job_ok job_failed job_stopped : Status

-- `status >= DDJVU_JOB_OK`.
abbrev pub is_finished : Status → Bool
is_finished job_notstarted = false
is_finished job_started = false
is_finished _ = true

abbrev pub is_ok : Status → Bool
is_ok job_ok = true
is_ok _ = false

-- The fields of `ddjvu_pageinfo_t` that the adapter reads. `rotation` counts quarter turns.
pub record PageInfo : Type 0 where
  pub width : ℤ
  pub height : ℤ
  pub dpi : ℤ
  pub rotation : ℕ

-- What one open document answers about its pages, and the timeout it was opened with.
pub record Pages : Type 0 where
  pub timeout_ms : ℕ
  pub page_count : ℤ
  pub info_polls : ℤ → Polls (Status × PageInfo)

abbrev pub max_source_pixels : ℕ
max_source_pixels = 100000000

unfoldable pub check_page : Pages → ℤ → Result (Unit {0})
check_page doc index = reject (ltb_ℤ index (pos 0) || leb_ℤ doc.page_count index) page_out_of_range

-- The test after the wait: the job's status, and the size of the page.
unfoldable pub is_bad_page : Status → PageInfo → Bool
is_bad_page status info =
    not (is_ok status)
    || leb_ℤ info.width (pos 0)
    || leb_ℤ info.height (pos 0)
    || ltb_ℤ (pos max_source_pixels) (info.width *ℤ info.height)

unfoldable pub info_wait : Pages → ℤ → Result (Status × PageInfo)
info_wait doc index = wait_for doc.timeout_ms (until (λ a. is_finished a.0) (doc.info_polls index))

unfoldable pub page_info : Pages → ℤ → Result PageInfo
page_info doc index = do
  check_page doc index
  answer ← info_wait doc index
  reject (is_bad_page answer.0 answer.1) bad_page
  ok answer.1

unfoldable pub oriented_size : PageInfo → ℤ × ℤ
oriented_size info = (info.width, info.height)
