-- ===== src/Page/Tests.antt =====
-- The size of a page of a concrete document.
use readflex.Prelude.{ℕ, ◌≡◌, refl, ◌↔◌, pos, if◌then◌else◌, ◌==◌, [], ◌*◌}
use readflex.Failure.{ok, err, page_out_of_range}
use readflex.Page.Bounds.{IsPage, IsSized, page_info_iff}
use readflex.Page.{
  job_started, job_ok, PageInfo, Pages, check_page, is_bad_page, info_wait, page_info,
}
use readflex.Wait.{messages, drain, pass, wait_loop, wait_for, millisecond}

abbrev pub letter : PageInfo
letter = record { width = pos 850; height = pos 1100; dpi = pos 100; rotation = 1 }

-- Two pages, whose size is known at the second poll.
abbrev pub two_pages : Pages
two_pages = record {
  timeout_ms = 5;
  page_count = pos 2;
  info_polls = λ page. record {
    start = 0;
    clock = λ k. k * millisecond;
    answer = λ k. (if k == 0 then job_started else job_ok, letter);
    posted = λ k. [];
  };
}

test_page_info : page_info two_pages (pos 1) ≡ ok letter
unfolding page_info check_page info_wait is_bad_page wait_for wait_loop pass messages drain
test_page_info = refl

test_out_of_range : page_info two_pages (pos 2) ≡ err page_out_of_range
unfolding page_info check_page
test_out_of_range = refl

page_info_iff_example : (page_info two_pages (pos 1) ≡ ok letter) ↔ (
    ((i : ℕ) × IsPage two_pages (pos 1) i)
    × (info_wait two_pages (pos 1) ≡ ok (job_ok, letter))
    × ((w : ℕ) × (h : ℕ) × IsSized letter w h))
page_info_iff_example = page_info_iff two_pages (pos 1) letter
