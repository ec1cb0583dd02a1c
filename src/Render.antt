-- ===== src/Render.antt =====
-- `pagecraft_djvu_render` of pagecraft_djvu.cpp. What the decoder and the allocator answer is a
-- parameter; the pixels that the decoder writes are a list of bytes of its choice.
pub mod Region
pub mod Returns
pub mod Named
pub mod Tests
use readflex.Prelude.{
  ℕ, zero, suc, ◌+◌, ◌*◌, ◌≤◌, Bool, true, false, not, ◌||◌, Option, none, some, List, [], ◌∷◌,
  Bytes, ltb, leb, if◌then◌else◌, ℤ, pos, pos_part, ◌+ℤ◌, ◌*ℤ◌, ltb_ℤ, leb_ℤ,
}
use readflex.Failure.{
  Result, ok, err, ◌>>=◌, ◌>>◌, reject, bad_region, cannot_open_page, cannot_decode_page,
  no_pixel_format, cannot_render, bad_alloc,
}
use readflex.Page.{Pages, PageInfo, page_info}
use readflex.Resource.{Run, page, format, pixels, throws, after, scoped, handed_over}
use readflex.Wait.{Wait, wait_for}

pub record Request : Type 0 where
  pub full_width : ℤ
  pub full_height : ℤ
  pub x : ℤ
  pub y : ℤ
  pub width : ℤ
  pub height : ℤ

abbrev pub max_render_pixels : ℕ
max_render_pixels = 6000000

abbrev pub max_full_side : ℕ
max_full_side = 131072

-- The sums and the product are taken in `int64_t`, which the sides of an `int32_t` cannot leave.
pub is_bad_region : Request → Bool
is_bad_region r =
    leb_ℤ r.full_width (pos 0)
    || leb_ℤ r.full_height (pos 0)
    || ltb_ℤ (pos max_full_side) r.full_width
    || ltb_ℤ (pos max_full_side) r.full_height
    || ltb_ℤ r.x (pos 0)
    || ltb_ℤ r.y (pos 0)
    || leb_ℤ r.width (pos 0)
    || leb_ℤ r.height (pos 0)
    || ltb_ℤ r.full_width (r.x +ℤ r.width)
    || ltb_ℤ r.full_height (r.y +ℤ r.height)
    || ltb_ℤ (pos max_render_pixels) (r.width *ℤ r.height)

-- The rows of the buffer are tightly packed, four bytes to a pixel.
pub buffer_length : Request → ℕ
buffer_length r = pos_part r.width * pos_part r.height * 4

pub row_stride : Request → ℕ
row_stride r = pos_part r.width * 4

-- What the decoder and `malloc` answer in one call.
pub record Renderer : Type 0 where
  pub opens_page : Bool
  pub decoding_done : Wait (Unit {0})
  pub decoding_error : Bool
  pub makes_format : Bool
  pub has_memory : ℕ → Bool
  -- `ddjvu_page_render` into a buffer of this length, with this stride: 0, or the bytes written.
  pub renders : Request → ℕ → ℕ → Option Bytes

-- From the pixel format on.
pub render_pixels : Renderer → Request → Run Bytes
render_pixels d r =
    if d.has_memory (buffer_length r)
    then handed_over pixels (elim (d.renders r (buffer_length r) (row_stride r)) [
      | none ↦ err cannot_render
      | some bytes ↦ ok bytes
    ])
    else throws bad_alloc

pub render_format : Renderer → Request → Run Bytes
unfolding render_pixels
render_format d r =
    if d.makes_format then scoped format (render_pixels d r) else throws no_pixel_format

-- With the page open.
pub render_page : Pages → Renderer → Request → Run Bytes
unfolding render_format
render_page doc d r =
    after (wait_for doc.timeout_ms d.decoding_done)
      λ _. if d.decoding_error then throws cannot_decode_page else render_format d r

pub render : Pages → Renderer → ℤ → Request → Run Bytes
unfolding render_page
render doc d index r = after (page_info doc index) λ _.
    after (reject (is_bad_region r) bad_region)
      λ _. if d.opens_page then scoped page (render_page doc d r) else throws cannot_open_page
