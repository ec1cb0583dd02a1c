-- ===== src/Decoder/Text/Offsets.antt =====
-- The fields of a zone are read back, and give its place back.
use readflex.Decoder.ByteStream.{got}
use readflex.Decoder.Layout.{
  Context, rect_width, rect_height, rect_at, stands_below, coded_x, coded_y, coded_start, placed_x,
  placed_y, placed_start,
}
use readflex.Decoder.Text.{Fields, low_half, write_fields, read_fields, placed_rect, fields_of}
use readflex.Decoder.Zones.{GRect, zone, Children}
use readflex.Prelude.{
  ℕ, ◌+◌, ◌%◌, ◌*◌, ◌/◌, ◌≤◌, ◌<◌, ◌≡◌, refl, ap, ◌∙◌, none, some, Bool-cases, inl, inr, ◌++◌,
  Bytes, arith, ℤ, pos, negsuc, ◌+ℤ◌, ◌-ℤ◌, sub_ℕ, ℤ-ext, sub_ℕ-parts, pos_part, neg_part,
}

-- The law of a difference, and of a sum.
sum-parts :
    (a b : ℤ)
    → pos_part (a +ℤ b) + (neg_part a + neg_part b) ≡ neg_part (a +ℤ b) + (pos_part a + pos_part b)
sum-parts a b = sub_ℕ-parts (pos_part a + pos_part b) (neg_part a + neg_part b)

difference-parts :
    (a b : ℤ)
    → pos_part (a -ℤ b) + (neg_part a + pos_part b) ≡ neg_part (a -ℤ b) + (pos_part a + neg_part b)
difference-parts a b = sub_ℕ-parts (pos_part a + neg_part b) (neg_part a + pos_part b)

sub-add : (a b : ℤ) → (a -ℤ b) +ℤ b ≡ a
sub-add a b = ℤ-ext ((a -ℤ b) +ℤ b) a (omega (arith, difference-parts a b, sum-parts (a -ℤ b) b))

add-sub : (a b : ℤ) → a +ℤ (b -ℤ a) ≡ b
add-sub a b = ℤ-ext (a +ℤ (b -ℤ a)) b (omega (arith, difference-parts b a, sum-parts a (b -ℤ a)))

-- Twice the distance from an upper side.
flip-flip : (p y h : ℤ) → p -ℤ ((p -ℤ (y +ℤ h)) +ℤ h) ≡ y
flip-flip p y h = ℤ-ext (p -ℤ ((p -ℤ (y +ℤ h)) +ℤ h)) y (
    omega (
      arith,
      sum-parts y h,
      difference-parts p (y +ℤ h),
      sum-parts (p -ℤ (y +ℤ h)) h,
      difference-parts p ((p -ℤ (y +ℤ h)) +ℤ h),
    ))

module _ (ztype : ℕ) where
  placed-coded_x :
      (context : Context) (x : ℤ) → placed_x ztype context (coded_x ztype context x) ≡ x
  unfolding placed_x coded_x
  placed-coded_x (parent, some prev) x = elim (Bool-cases (stands_below ztype)) [
    | inl e ↦ rw (e, placed_x, coded_x) (sub-add x prev.rect.xmin)
    | inr e ↦ rw (e, placed_x, coded_x) (sub-add x prev.rect.xmax)
  ]
  placed-coded_x (some parent, none) x = sub-add x parent.rect.xmin
  placed-coded_x (none, none) x = refl

  placed-coded_y :
      (context : Context) (y h : ℤ) → placed_y ztype context (coded_y ztype context y h) h ≡ y
  unfolding placed_y coded_y
  placed-coded_y (parent, some prev) y h = elim (Bool-cases (stands_below ztype)) [
    | inl e ↦ rw (e, placed_y, coded_y) (flip-flip prev.rect.ymin y h)
    | inr e ↦ rw (e, placed_y, coded_y) (sub-add y prev.rect.ymin)
  ]
  placed-coded_y (some parent, none) y h = flip-flip parent.rect.ymax y h
  placed-coded_y (none, none) y h = refl

pub placed-coded_start :
    (context : Context) (start : ℤ) → placed_start context (coded_start context start) ≡ start
unfolding placed_start coded_start
placed-coded_start (parent, some prev) start = sub-add start (pos (prev.start + prev.length))
placed-coded_start (some parent, none) start = sub-add start (pos parent.start)
placed-coded_start (none, none) start = refl

-- A rectangle by its corner and its size.
rect_at-corner :
    (rect : GRect) → rect_at rect.xmin rect.ymin (rect_width rect) (rect_height rect) ≡ rect
rect_at-corner rect = rw (add-sub rect.xmin rect.xmax, add-sub rect.ymin rect.ymax) refl

pub placed_rect-fields_of :
    (context : Context) (ztype : ℕ) (rect : GRect) (start length : ℕ) (zones : Children)
    → placed_rect ztype context (fields_of context (zone ztype rect start length zones)) ≡ rect
unfolding placed_rect
placed_rect-fields_of context ztype rect start length zones =
    rw
      (
        placed-coded_x ztype context rect.xmin,
        placed-coded_y ztype context rect.ymin (rect_height rect),
      )
      (rect_at-corner rect)

-- The values of a field of 16 bits.
abbrev pub IsShort : ℤ → Type 0
IsShort a = (pos_part a ≤ 32767) × (neg_part a ≤ 32768)

low_half-IsShort :
    (a : ℤ)
    → IsShort a
    → (low_half (pos 32768 +ℤ a) < 65536) × (sub_ℕ (low_half (pos 32768 +ℤ a)) 32768 ≡ a)
unfolding low_half
low_half-IsShort (pos n) h = ground arith
low_half-IsShort (negsuc n) h = ground arith

offset-IsShort :
    (a : ℤ)
    → IsShort a
    → sub_ℕ (low_half (pos 32768 +ℤ a) / 256 % 256 * 256 + low_half (pos 32768 +ℤ a) % 256) 32768
      ≡ a
offset-IsShort a h =
    let (small, back) = low_half-IsShort a h in
    ap (λ (n : ℕ). sub_ℕ n 32768) (omega (arith, small)) ∙ back

three_bytes : (n : ℕ) → n < 16777216 → (n / 65536 % 256 * 256 + n / 256 % 256) * 256 + n % 256 ≡ n
three_bytes n h = omega arith

abbrev pub HasCodes : Fields → Type 0
HasCodes f =
    IsShort f.x
    × (IsShort f.y
        × (IsShort f.width
            × (IsShort f.height × (IsShort f.start × (f.length < 16777216 × f.size < 16777216)))))

pub read_fields-write_fields :
    (f : Fields) (rest : Bytes) → HasCodes f → read_fields (write_fields f ++ rest) ≡ got f rest
unfolding read_fields write_fields
read_fields-write_fields f rest (x, (y, (w, (h, (s, (l, n)))))) =
    rw
      (
        offset-IsShort f.x x,
        offset-IsShort f.y y,
        offset-IsShort f.width w,
        offset-IsShort f.height h,
        offset-IsShort f.start s,
        three_bytes f.length l,
        three_bytes f.size n,
      )
      refl
