-- ===== src/Decoder/Text/Bounds.antt =====
-- How far the rectangle of a zone lies from those of its parent and of the zone before it.
use readflex.Decoder.Layout.{Frame, Context, placed_x, placed_y, stands_below}
use readflex.Decoder.Text.{Fields, placed_rect}
use readflex.Decoder.Zones.{GRect}
use readflex.Prelude.{
  ℕ, ◌+◌, ◌≤◌, Option, none, some, Bool-cases, arith, inl, inr, ℤ, ◌+ℤ◌, ◌-ℤ◌, pos_part, neg_part,
  IsWithin, sub_ℕ-IsWithin, sub_ℕ-parts,
}

pub add-IsWithin : (m n : ℕ) (a b : ℤ) → IsWithin m a → IsWithin n b → IsWithin (m + n) (a +ℤ b)
add-IsWithin m n a b (h, h') (k, k') =
    sub_ℕ-IsWithin (m + n) (pos_part a + pos_part b) (neg_part a + neg_part b) (omega arith)
      (omega arith)

pub sub-IsWithin : (m n : ℕ) (a b : ℤ) → IsWithin m a → IsWithin n b → IsWithin (m + n) (a -ℤ b)
sub-IsWithin m n a b (h, h') (k, k') =
    sub_ℕ-IsWithin (m + n) (pos_part a + neg_part b) (neg_part a + pos_part b) (omega arith)
      (omega arith)

-- The upper side of a rectangle that is placed by it.
back-IsWithin :
    (m n : ℕ) (p y h : ℤ) → IsWithin m p → IsWithin n y → IsWithin (m + n) ((p -ℤ (y +ℤ h)) +ℤ h)
back-IsWithin m n p y h (hp, hp') (hy, hy') =
    sub_ℕ-IsWithin (m + n) _ _
      (omega (
        arith,
        sub_ℕ-parts (pos_part y + pos_part h) (neg_part y + neg_part h),
        sub_ℕ-parts (pos_part p + neg_part (y +ℤ h)) (neg_part p + pos_part (y +ℤ h)),
      ))
      (omega (
        arith,
        sub_ℕ-parts (pos_part y + pos_part h) (neg_part y + neg_part h),
        sub_ℕ-parts (pos_part p + neg_part (y +ℤ h)) (neg_part p + pos_part (y +ℤ h)),
      ))

pub weaken-IsWithin : (m n : ℕ) (a : ℤ) → m ≤ n → IsWithin m a → IsWithin n a
weaken-IsWithin m n a le (h, h') = (omega arith, omega arith)

-- All sides of a rectangle.
pub record LiesWithin (bound : ℕ) (rect : GRect) : Type 0 where
  pub xmin_within : IsWithin bound rect.xmin
  pub ymin_within : IsWithin bound rect.ymin
  pub xmax_within : IsWithin bound rect.xmax
  pub ymax_within : IsWithin bound rect.ymax

pub weaken-LiesWithin : (m n : ℕ) (rect : GRect) → m ≤ n → LiesWithin m rect → LiesWithin n rect
weaken-LiesWithin m n rect le h = record {
  xmin_within = weaken-IsWithin m n rect.xmin le h.xmin_within;
  ymin_within = weaken-IsWithin m n rect.ymin le h.ymin_within;
  xmax_within = weaken-IsWithin m n rect.xmax le h.xmax_within;
  ymax_within = weaken-IsWithin m n rect.ymax le h.ymax_within;
}

abbrev FrameWithin : ℕ → Option Frame → Type 0
FrameWithin bound none = Unit
FrameWithin bound (some frame) = LiesWithin bound frame.rect

abbrev pub ContextWithin : ℕ → Context → Type 0
ContextWithin bound (parent, prev) = FrameWithin bound parent × FrameWithin bound prev

-- The fields are of 16 bits.
abbrev pub HasShorts : Fields → Type 0
HasShorts f =
    IsWithin 32768 f.x × (IsWithin 32768 f.y × (IsWithin 32768 f.width × IsWithin 32768 f.height))

module _ (bound ztype : ℕ) where
  beside-IsWithin :
      (x p : ℤ) → IsWithin bound p → IsWithin 32768 x → IsWithin (bound + 32768) (x +ℤ p)
  beside-IsWithin x p h near =
      weaken-IsWithin (32768 + bound) (bound + 32768) (x +ℤ p) (omega arith)
        (add-IsWithin 32768 bound x p near h)

  x-IsWithin :
      (context : Context) (x : ℤ)
      → ContextWithin bound context
      → IsWithin 32768 x
      → IsWithin (bound + 32768) (placed_x ztype context x)
  unfolding placed_x
  x-IsWithin (parent, some prev) x (h, k) near = elim (Bool-cases (stands_below ztype)) [
    | inl e ↦ rw (e, placed_x) (beside-IsWithin x prev.rect.xmin k.xmin_within near)
    | inr e ↦ rw (e, placed_x) (beside-IsWithin x prev.rect.xmax k.xmax_within near)
  ]
  x-IsWithin (some parent, none) x (h, k) near =
      beside-IsWithin x parent.rect.xmin h.xmin_within near
  x-IsWithin (none, none) x (h, k) near = weaken-IsWithin 32768 (bound + 32768) x (omega arith) near

  -- Both sides of a rectangle, the lower and the upper.
  abbrev SidesWithin : ℤ → ℤ → Type 0
  SidesWithin y height = IsWithin (bound + 65536) y × IsWithin (bound + 65536) (y +ℤ height)

  below-Sides :
      (p y height : ℤ)
      → IsWithin bound p
      → IsWithin 32768 y
      → IsWithin 32768 height
      → SidesWithin (p -ℤ (y +ℤ height)) height
  below-Sides p y height h near low = (
    sub-IsWithin bound 65536 p (y +ℤ height) h (add-IsWithin 32768 32768 y height near low),
    weaken-IsWithin (bound + 32768) (bound + 65536) ((p -ℤ (y +ℤ height)) +ℤ height) (omega arith)
        (back-IsWithin bound 32768 p y height h near),
  )

  above-Sides :
      (y height : ℤ) → IsWithin (bound + 32768) y → IsWithin 32768 height → SidesWithin y height
  above-Sides y height h low = (
    weaken-IsWithin (bound + 32768) (bound + 65536) y (omega arith) h,
    weaken-IsWithin (bound + 32768 + 32768) (bound + 65536) (y +ℤ height) (omega arith)
        (add-IsWithin (bound + 32768) 32768 y height h low),
  )

  y-Sides :
      (context : Context) (y height : ℤ)
      → ContextWithin bound context
      → IsWithin 32768 y
      → IsWithin 32768 height
      → SidesWithin (placed_y ztype context y height) height
  unfolding placed_y
  y-Sides (parent, some prev) y height (h, k) near low = elim (Bool-cases (stands_below ztype)) [
    | inl e ↦ rw (e, placed_y) (below-Sides prev.rect.ymin y height k.ymin_within near low)
    | inr e ↦
        rw (e, placed_y)
          (above-Sides (y +ℤ prev.rect.ymin) height
            (beside-IsWithin y prev.rect.ymin k.ymin_within near) low)
  ]
  y-Sides (some parent, none) y height (h, k) near low =
      below-Sides parent.rect.ymax y height h.ymax_within near low
  y-Sides (none, none) y height (h, k) near low =
      above-Sides y height (weaken-IsWithin 32768 (bound + 32768) y (omega arith) near) low

  -- A rectangle is at most 65536 further out than the ones it is placed by.
  pub placed_rect-LiesWithin :
      (context : Context) (f : Fields)
      → ContextWithin bound context
      → HasShorts f
      → LiesWithin (bound + 65536) (placed_rect ztype context f)
  unfolding placed_rect
  placed_rect-LiesWithin context f h (x, (y, (wide, high))) =
      let left : IsWithin (bound + 32768) (placed_x ztype context f.x) =
        x-IsWithin context f.x h x in
      let (low, up) = y-Sides context f.y f.height h y high in
      record {
        xmin_within = weaken-IsWithin (bound + 32768) (bound + 65536) _ (omega arith) left;
        ymin_within = low;
        xmax_within =
            weaken-IsWithin (bound + 32768 + 32768) (bound + 65536) _ (omega arith)
              (add-IsWithin (bound + 32768) 32768 _ f.width left wide);
        ymax_within = up;
      }
