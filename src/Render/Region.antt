-- ===== src/Render/Region.antt =====
-- The regions that `pagecraft_djvu_render` lets through, and the buffer for them.
use readflex.Prelude.{
  ℕ, suc, ◌+◌, ◌*◌, ◌^◌, ◌≤◌, ◌<◌, ◌≡◌, ◌↔◌, arith, false, Bool, ◌||◌, ◌+ℤ◌, ◌*ℤ◌, ltb_ℤ, leb_ℤ, ℤ,
  pos, pos_part,
}
use readflex.Render.{
  Request, max_render_pixels, max_full_side, is_bad_region, buffer_length, row_stride,
}

-- A region of the page, scaled to some size, that is not empty and not too large.
pub record IsRegion (r : Request) (fw fh x y w h : ℕ) : Type 0 where
  pub is_full_width : r.full_width ≡ pos fw
  pub is_full_height : r.full_height ≡ pos fh
  pub is_x : r.x ≡ pos x
  pub is_y : r.y ≡ pos y
  pub is_width : r.width ≡ pos w
  pub is_height : r.height ≡ pos h
  pub full_width_le : fw ≤ max_full_side
  pub full_height_le : fh ≤ max_full_side
  pub width_pos : 0 < w
  pub height_pos : 0 < h
  pub right : x + w ≤ fw
  pub bottom : y + h ≤ fh
  pub area : w * h ≤ max_render_pixels

abbrev pub Fits : Request → Type 0
Fits r = (fw : ℕ) × (fh : ℕ) × (x : ℕ) × (y : ℕ) × (w : ℕ) × (h : ℕ) × IsRegion r fw fh x y w h

IsRegion-is_bad_region : (r : Request) (f : Fits r) → is_bad_region r ≡ false
unfolding is_bad_region
IsRegion-is_bad_region r f = ground arith

-- Each test of the guard has failed.
record Passed (r : Request) : Type 0 where
  full_width_pos : leb_ℤ r.full_width (pos 0) ≡ false
  full_height_pos : leb_ℤ r.full_height (pos 0) ≡ false
  full_width_le : ltb_ℤ (pos max_full_side) r.full_width ≡ false
  full_height_le : ltb_ℤ (pos max_full_side) r.full_height ≡ false
  x_nonneg : ltb_ℤ r.x (pos 0) ≡ false
  y_nonneg : ltb_ℤ r.y (pos 0) ≡ false
  width_pos : leb_ℤ r.width (pos 0) ≡ false
  height_pos : leb_ℤ r.height (pos 0) ≡ false
  right : ltb_ℤ r.full_width (r.x +ℤ r.width) ≡ false
  bottom : ltb_ℤ r.full_height (r.y +ℤ r.height) ≡ false
  area : ltb_ℤ (pos max_render_pixels) (r.width *ℤ r.height) ≡ false

none_true :
    (a b c d e f g h i j k : Bool)
    → (a || b || c || d || e || f || g || h || i || j || k) ≡ false
    → (a ≡ false)
      × (b ≡ false)
      × (c ≡ false)
      × (d ≡ false)
      × (e ≡ false)
      × (f ≡ false)
      × (g ≡ false)
      × (h ≡ false)
      × (i ≡ false)
      × (j ≡ false)
      × (k ≡ false)
none_true a b c d e f g h i j k none = ground arith

is_bad_region-Passed : (r : Request) → is_bad_region r ≡ false → Passed r
unfolding is_bad_region
is_bad_region-Passed r e =
    let (a, b, c, d, e', f, g, h, i, j, k) =
      none_true (leb_ℤ r.full_width (pos 0)) (leb_ℤ r.full_height (pos 0))
        (ltb_ℤ (pos max_full_side) r.full_width) (ltb_ℤ (pos max_full_side) r.full_height)
        (ltb_ℤ r.x (pos 0)) (ltb_ℤ r.y (pos 0)) (leb_ℤ r.width (pos 0)) (leb_ℤ r.height (pos 0))
        (ltb_ℤ r.full_width (r.x +ℤ r.width)) (ltb_ℤ r.full_height (r.y +ℤ r.height))
        (ltb_ℤ (pos max_render_pixels) (r.width *ℤ r.height)) e in
    record {
      full_width_pos = a;
      full_height_pos = b;
      full_width_le = c;
      full_height_le = d;
      x_nonneg = e';
      y_nonneg = f;
      width_pos = g;
      height_pos = h;
      right = i;
      bottom = j;
      area = k;
    }

nonneg : (z : ℤ) → ltb_ℤ z (pos 0) ≡ false → z ≡ pos (pos_part z)
nonneg z h = ground arith

positive : (z : ℤ) → leb_ℤ z (pos 0) ≡ false → (z ≡ pos (pos_part z)) × (0 < pos_part z)
positive z h = ground arith

side_le : (m : ℕ) (f : ℤ) → ltb_ℤ (pos m) f ≡ false → pos_part f ≤ m
side_le m f h = ground arith

end_le :
    (f x w : ℤ)
    → f ≡ pos (pos_part f)
    → x ≡ pos (pos_part x)
    → w ≡ pos (pos_part w)
    → ltb_ℤ f (x +ℤ w) ≡ false
    → pos_part x + pos_part w ≤ pos_part f
end_le f x w hf hx hw h = ground arith

area_le :
    (m : ℕ) (w h : ℤ)
    → w ≡ pos (pos_part w)
    → h ≡ pos (pos_part h)
    → ltb_ℤ (pos m) (w *ℤ h) ≡ false
    → pos_part w * pos_part h ≤ m
area_le m w h hw hh e = ground arith

is_bad_region-Fits : (r : Request) → is_bad_region r ≡ false → Fits r
is_bad_region-Fits r e =
    let p = is_bad_region-Passed r e in
    let (fw, fw_pos) = positive r.full_width p.full_width_pos in
    let (fh, fh_pos) = positive r.full_height p.full_height_pos in
    let (w, w_pos) = positive r.width p.width_pos in
    let (h, h_pos) = positive r.height p.height_pos in
    let x = nonneg r.x p.x_nonneg in
    let y = nonneg r.y p.y_nonneg in
    (
      pos_part r.full_width,
      pos_part r.full_height,
      pos_part r.x,
      pos_part r.y,
      pos_part r.width,
      pos_part r.height,
      record {
        is_full_width = fw;
        is_full_height = fh;
        is_x = x;
        is_y = y;
        is_width = w;
        is_height = h;
        full_width_le = side_le _ _ p.full_width_le;
        full_height_le = side_le _ _ p.full_height_le;
        width_pos = w_pos;
        height_pos = h_pos;
        right = end_le r.full_width r.x r.width fw x w p.right;
        bottom = end_le r.full_height r.y r.height fh y h p.bottom;
        area = area_le max_render_pixels r.width r.height w h p.area;
      },
    )

-- The guard lets a request through exactly if its region is not empty, lies on the scaled page, and
-- the page and the region keep to their limits.
pub is_bad_region_iff : (r : Request) → (is_bad_region r ≡ false) ↔ Fits r
is_bad_region_iff r = (is_bad_region-Fits r, IsRegion-is_bad_region r)

in_buffer :
    (row column byte w h : ℕ)
    → row < h
    → column < w
    → byte < 4
    → row * (w * 4) + column * 4 + byte < w * h * 4
in_buffer row column byte w h hr hc hb = let rows : suc row * w ≤ h * w = grind arith in omega arith

side-le-area : (w h : ℕ) → 0 < h → w ≤ w * h
side-le-area w h pos_h = grind arith

-- Every byte of every pixel of a region that is let through stands in the buffer, and neither the
-- length of the buffer nor the stride of a row leaves a 32-bit `int`.
pub buffer_bounds :
    (r : Request) (row column byte : ℕ)
    → is_bad_region r ≡ false
    → row < pos_part r.height
    → column < pos_part r.width
    → byte < 4
    → (row * row_stride r + column * 4 + byte < buffer_length r)
      × (buffer_length r < 2 ^ 31)
      × (row_stride r < 2 ^ 31)
unfolding buffer_length row_stride
buffer_bounds r row column byte passed hr hc hb =
    let p = is_bad_region-Passed r passed in
    let w = positive r.width p.width_pos in
    let h = positive r.height p.height_pos in
    let area = area_le max_render_pixels r.width r.height w.0 h.0 p.area in
    let width = side_le max_full_side r.full_width p.full_width_le in
    (
      in_buffer row column byte _ _ hr hc hb,
      omega arith,
      omega (arith, side-le-area (pos_part r.width) (pos_part r.height) h.1),
    )
