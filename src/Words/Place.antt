-- ===== src/Words/Place.antt =====
-- The rectangles of words: within the page, and turned as the page is.
use readflex.Prelude.{
  ℕ, zero, suc, ◌+◌, ◌-◌, ◌%◌, ◌≤◌, ◌<◌, ◌≤ℤ◌, ◌↔◌, arith, ℤ, pos, pos_part, if◌then◌else◌, ◌==◌,
}
use readflex.Page.{PageInfo}
use readflex.Words.{Rect, raw_width, raw_height, clamp, cut, rotate, place}

-- A rectangle that lies on a page of `w` by `h`.
pub record LiesIn (w h : ℕ) (r : Rect) : Type 0 where
  pub right : r.x + r.width ≤ w
  pub bottom : r.y + r.height ≤ h

clamp_bounds : (v : ℤ) (lo hi : ℕ) → lo ≤ hi → (lo ≤ clamp v lo hi) × (clamp v lo hi ≤ hi)
unfolding clamp
clamp_bounds v lo hi h = ground arith

cut-LiesIn : (w h : ℕ) (x1 y1 x2 y2 : ℤ) → LiesIn w h (cut w h x1 y1 x2 y2)
unfolding cut
cut-LiesIn w h x1 y1 x2 y2 =
    let left = clamp_bounds x1 0 w (omega arith) in
    let right = clamp_bounds x2 (clamp x1 0 w) w left.1 in
    let top = clamp_bounds y2 0 h (omega arith) in omega arith

rotate-LiesIn :
    (w h quarter : ℕ) (r : Rect)
    → LiesIn w h r
    → LiesIn
        (if quarter % 2 == 1 then h else w)
        (if quarter % 2 == 1 then w else h)
        (rotate w h (quarter % 4) r)
unfolding rotate
rotate-LiesIn w h quarter r l = ground arith

-- Whatever rectangle the text layer gives, the one that is reported lies on the page as it is shown.
pub place-LiesIn :
    (info : PageInfo) (x1 y1 x2 y2 : ℤ)
    → LiesIn (pos_part info.width) (pos_part info.height) (place info x1 y1 x2 y2)
unfolding place
place-LiesIn info x1 y1 x2 y2 = ground (
  arith,
  rotate-LiesIn (raw_width info) (raw_height info) info.rotation
      (cut (raw_width info) (raw_height info) x1 y1 x2 y2)
      (cut-LiesIn (raw_width info) (raw_height info) x1 y1 x2 y2),
)

-- A pixel, by its column and its row from the top.
pub record Pixel : Type 0 where
  pub column : ℕ
  pub row : ℕ

pub record Covers (r : Rect) (p : Pixel) : Type 0 where
  pub from_left : r.x ≤ p.column
  pub to_right : p.column < r.x + r.width
  pub from_top : r.y ≤ p.row
  pub to_bottom : p.row < r.y + r.height

-- The text layer counts rows from the bottom: `row` is h - 1 - row there.
pub record Inside (h : ℕ) (x1 y1 x2 y2 : ℤ) (p : Pixel) : Type 0 where
  pub from_left : x1 ≤ℤ pos p.column
  pub to_right : pos (suc p.column) ≤ℤ x2
  pub from_bottom : y1 ≤ℤ pos (h - suc p.row)
  pub to_top : pos (suc (h - suc p.row)) ≤ℤ y2

columns_iff :
    (w c : ℕ) (x1 x2 : ℤ)
    → c < w
    → ((clamp x1 0 w ≤ c) × (c < clamp x1 0 w + (clamp x2 (clamp x1 0 w) w - clamp x1 0 w)))
      ↔ ((x1 ≤ℤ pos c) × (pos (suc c) ≤ℤ x2))
unfolding clamp
columns_iff w c x1 x2 h = (λ e. ground arith, λ e. ground arith)

rows_iff :
    (h r : ℕ) (y1 y2 : ℤ)
    → r < h
    → ((h - clamp y2 0 h ≤ r) × (r < h - clamp y2 0 h + (clamp y2 0 h - clamp y1 0 h)))
      ↔ ((y1 ≤ℤ pos (h - suc r)) × (pos (suc (h - suc r)) ≤ℤ y2))
unfolding clamp
rows_iff h r y1 y2 l = (λ e. ground arith, λ e. ground arith)

cut-Covers :
    (w h : ℕ) (x1 y1 x2 y2 : ℤ) (p : Pixel)
    → p.column < w
    → p.row < h
    → Covers (cut w h x1 y1 x2 y2) p ↔ Inside h x1 y1 x2 y2 p
unfolding cut
cut-Covers w h x1 y1 x2 y2 p c r =
    let columns = columns_iff w p.column x1 x2 c in
    let rows = rows_iff h p.row y1 y2 r in
    (λ e. ground (arith, columns.0, rows.0), λ e. ground (arith, columns.1, rows.1))

-- Where a pixel of a page of `w` columns goes when the page is turned by a quarter.
pub quarter_turn : ℕ → Pixel → Pixel
quarter_turn w p = record { column = p.row; row = w - suc p.column }

pub turns : ℕ → ℕ → ℕ → Pixel → Pixel
unfolding quarter_turn
turns zero w h p = p
turns (suc n) w h p = turns n h w (quarter_turn w p)

rotate-Covers :
    (w h quarter : ℕ) (r : Rect) (p : Pixel)
    → LiesIn w h r
    → quarter < 4
    → p.column < w
    → p.row < h
    → Covers (rotate w h quarter r) (turns quarter w h p) ↔ Covers r p
unfolding rotate turns
rotate-Covers w h zero r p l q c d = ground arith
rotate-Covers w h (suc zero) r p l q c d = ground arith
rotate-Covers w h (suc (suc zero)) r p l q c d = ground arith
rotate-Covers w h (suc (suc (suc zero))) r p l q c d = ground arith
rotate-Covers w h (suc (suc (suc (suc n)))) r p l q c d = absurd (omega arith)

-- The reported rectangle holds a pixel of the page as it is shown exactly if the text layer's
-- rectangle, which counts rows from the bottom of the page before it is turned, holds the pixel that
-- the rotation takes there.
pub place-Covers :
    (info : PageInfo) (x1 y1 x2 y2 : ℤ) (p : Pixel)
    → p.column < raw_width info
    → p.row < raw_height info
    → Covers
        (place info x1 y1 x2 y2)
        (turns (info.rotation % 4) (raw_width info) (raw_height info) p)
      ↔ Inside (raw_height info) x1 y1 x2 y2 p
unfolding place
place-Covers info x1 y1 x2 y2 p c r =
    let w = raw_width info in
    let h = raw_height info in
    let turned =
      rotate-Covers w h (info.rotation % 4) (cut w h x1 y1 x2 y2) p (cut-LiesIn w h x1 y1 x2 y2)
        (omega arith) c r in
    let kept = cut-Covers w h x1 y1 x2 y2 p c r in
    (λ e. kept.0 (turned.0 e), λ e. turned.1 (kept.1 e))
