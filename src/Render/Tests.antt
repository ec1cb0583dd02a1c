-- ===== src/Render/Tests.antt =====
-- Concrete renderings.
use readflex.Prelude.{
  ◌+◌, ◌*◌, ◌^◌, ◌<◌, ◌≡◌, refl, ◌↔◌, arith, false, true, some, [], ◌∷◌, pos, Bytes,
}
use readflex.Failure.{ok}
use readflex.Page.{check_page, info_wait, is_bad_page, page_info}
use readflex.Page.Tests.{two_pages}
use readflex.Render.Region.{Fits, is_bad_region_iff, buffer_bounds}
use readflex.Render.Returns.{IsBalanced, render-IsBalanced, render_iff, Renders}
use readflex.Render.{
  Request, is_bad_region, buffer_length, row_stride, Renderer, render_pixels, render_format,
  render_page, render,
}
use readflex.Resource.{after, scoped, handed_over}
use readflex.Wait.Tests.{at_once}
use readflex.Wait.{messages, drain, pass, wait_loop, wait_for}

abbrev pub corner : Request
corner = record {
  full_width = pos 400;
  full_height = pos 300;
  x = pos 398;
  y = pos 0;
  width = pos 2;
  height = pos 1;
}

abbrev drawn : Bytes
drawn = 1 ∷ 2 ∷ 3 ∷ 4 ∷ 5 ∷ 6 ∷ 7 ∷ 8 ∷ []

abbrev pub renderer : Renderer
renderer = record {
  opens_page = true;
  decoding_done = at_once tt;
  decoding_error = false;
  makes_format = true;
  has_memory = λ n. true;
  renders = λ r length stride. some drawn;
}

test_rendered : (render two_pages renderer (pos 0) corner).result ≡ ok drawn
unfolding render render_page render_format render_pixels after scoped handed_over page_info
    check_page info_wait is_bad_page is_bad_region wait_for wait_loop pass messages drain
test_rendered = refl

-- One pixel beyond the right edge is too much.
test_outside : is_bad_region (record corner { x = pos 399 }) ≡ true
unfolding is_bad_region
test_outside = refl

is_bad_region_iff_example : (is_bad_region corner ≡ false) ↔ Fits corner
is_bad_region_iff_example = is_bad_region_iff corner

corner-good : is_bad_region corner ≡ false
unfolding is_bad_region
corner-good = refl

buffer_bounds_example :
    (0 * row_stride corner + 1 * 4 + 3 < buffer_length corner)
    × (buffer_length corner < 2 ^ 31)
    × (row_stride corner < 2 ^ 31)
buffer_bounds_example =
    buffer_bounds corner 0 1 3 corner-good (omega arith) (omega arith) (omega arith)

render-IsBalanced_example : IsBalanced (render two_pages renderer (pos 0) corner)
render-IsBalanced_example = render-IsBalanced two_pages renderer (pos 0) corner

render_iff_example :
    ((render two_pages renderer (pos 0) corner).result ≡ ok drawn)
    ↔ Renders two_pages renderer (pos 0) corner drawn
render_iff_example = render_iff two_pages renderer (pos 0) corner drawn
