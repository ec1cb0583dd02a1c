-- ===== src/Api/Tests.antt =====
-- Concrete calls of the C functions.
use readflex.Prelude.{
  true, false, Option, none, some, List, [], ◌∷◌, Bytes, codes, ℤ, pos, ◌≡◌, ◌⊎◌, ◌↔◌, refl, Bool,
}
use readflex.Api.Errors.{
  Reports, Written, Unreadable, Untouched, pointers-Reports, api_page_info-Written,
}
use readflex.Api.{
  guarded, api_open, api_page_count, api_page_info, api_render, api_text, api_outline, api_metadata,
}
use readflex.Api.Output.{PageOutput, document_of}
use readflex.Exp.{Exp, nil, consp}
use readflex.Failure.{ok, what, document_closed}
use readflex.Metadata.{Key, metadata}
use readflex.Open.{bundled, Opener}
use readflex.Outline.{Directory, outline}
use readflex.Page.Tests.{two_pages}
use readflex.Render.Tests.{corner, renderer}
use readflex.Wait.Tests.{at_once}
use readflex.Api.Released.{Abandoned, readers-IsReleased}
use readflex.Resource.{IsReleased, after, after_run, replay, expression_1}
use readflex.TextLayer.{expression, taken, read_expression, is_kept, text}
use readflex.Words.Tests.{line}
use readflex.Page.{PageInfo, check_page, info_wait, is_bad_page, page_info}
use readflex.Wait.{Wait, error, answered, last_answer, messages, drain, pass, wait_loop, wait_for}

abbrev no_file : Bytes → Option Bytes
no_file path = none

abbrev opener : Opener
opener = record {
  creates_context = true;
  creates_document = true;
  decoding_done = at_once tt;
  decoding_error = false;
  doc_type = bundled;
  page_count = pos 2;
}

abbrev no_text : ℤ → Wait Exp
no_text page = at_once nil

abbrev no_files : Directory
no_files = record { pages = pos 2; files = [] }

abbrev no_keys : Exp → Option (List Key)
no_keys e = none

-- The number of pages of a document that is closed.
test_closed : (api_page_count none).last_error ≡ what document_closed
unfolding api_page_count guarded document_of
test_closed = refl

pointers-Reports_example :
    Reports (api_open no_file opener (some (codes "a.djvu")) (pos 9))
    × Reports (api_render (some two_pages) renderer (pos 0) corner)
    × Reports (api_text (some two_pages) no_text true (pos 0))
    × Reports (api_outline (some two_pages) no_files (at_once nil) true)
    × Reports (api_metadata (some two_pages) (at_once nil) (at_once nil) no_keys true)
pointers-Reports_example =
    pointers-Reports no_file opener (some (codes "a.djvu")) (pos 9) (some two_pages) renderer
      (pos 0) corner no_text no_files (at_once nil) (at_once nil) no_keys true

abbrev before : PageOutput
before = record { width = pos 0; height = pos 0; dpi = pos 0 }

api_page_info-Written_example :
    (◌≡◌ {A = Bool} true true)
      × Written (some two_pages) (pos 1) (api_page_info (some two_pages) (pos 1) true before)
    ⊎ (Unreadable (pos 1) (some two_pages) true
        × Untouched before (api_page_info (some two_pages) (pos 1) true before))
api_page_info-Written_example = api_page_info-Written (some two_pages) (pos 1) true before

-- The decoder answers, and reports an error before the wait has looked at the messages.
abbrev disturbed : Wait Exp
disturbed = record (at_once line) { posted = λ k. error (some (codes "Corrupted")) ∷ [] }

abbrev disturbed_text : ℤ → Wait Exp
disturbed_text page = disturbed

-- The line is protected, and no guard exists that releases it.
left_behind :
    replay (text two_pages disturbed_text true (pos 1)).events [] ≡ some (expression_1 ∷ [])
unfolding text after after_run read_expression taken is_kept answered last_answer expression replay
    page_info check_page info_wait is_bad_page wait_for wait_loop pass messages drain
left_behind = refl

readers-IsReleased_example :
    (IsReleased (text two_pages disturbed_text true (pos 0)) ↔ (
      ¬ (
        (info : PageInfo) × (page_info two_pages (pos 0) ≡ ok info)
        × Abandoned is_kept two_pages.timeout_ms disturbed)))
    × (IsReleased (outline no_files two_pages.timeout_ms (at_once nil) true)
        ↔ (¬ Abandoned is_kept two_pages.timeout_ms (at_once nil)))
    × (IsReleased (metadata two_pages.timeout_ms (at_once nil) disturbed no_keys true) ↔ (
        ¬ (
          (value : Exp) × (expression two_pages.timeout_ms (at_once nil) ≡ ok value)
          × Abandoned consp two_pages.timeout_ms disturbed)))
readers-IsReleased_example =
    readers-IsReleased two_pages disturbed_text true (pos 0) no_files (at_once nil) disturbed
      no_keys
