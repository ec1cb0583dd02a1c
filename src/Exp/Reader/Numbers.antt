-- ===== src/Exp/Reader/Numbers.antt =====
-- Numbers, printed and read: `print_int`, `str_is_double` and `read_symbol_or_number`.
use readflex.Exp.Reader.Words.{InWord, Delimits, Delimits-Ends, read_word_value}
use readflex.Ctype.{is_digit, xdigit_value}
use readflex.Exp.Number.{
  Double, fits_number, parse_digits, parse_unsigned, whole_strtol, str_looks_like_double,
}
use readflex.Exp.Printer.{print_int}
use readflex.Exp.Reader.{ends_word, word_value, read_symbol_or_number}
use readflex.Exp.{number}
use readflex.Json.Bounds.{digits-small, digits-large, digits-zero, to_string-digits}
use readflex.Json.{digits, to_string}
use readflex.Prelude.{
  ℕ, zero, suc, ◌+◌, ◌*◌, ◌/◌, ◌%◌, ◌^◌, ◌≤◌, ◌<◌, ◌≡◌, refl, sym, ap, ◌∙◌, inl, inr, arith, Option,
  some, [], ◌∷◌, ◌++◌, All, Bytes, length, length-append, true, false, Bool-cases, ltb, leb, ◌==◌,
  ==_iff, subst, ℤ, pos, negsuc,
}

All-append : (xs ys : Bytes) → All InWord xs → All InWord ys → All InWord (xs ++ ys)
All-append [] ys _ h = h
All-append (x ∷ xs) ys (a, all) h = (a, All-append xs ys all h)

digit-InWord : (c : ℕ) → is_digit c ≡ true → InWord c
unfolding ends_word
digit-InWord c h = ground arith

digits-InWord : (fuel n : ℕ) → All InWord (digits fuel n)
digits-InWord zero n = rw (digits-zero n) tt
digits-InWord (suc fuel) n = elim (Bool-cases (ltb n 10)) [
  | inl small ↦ rw (digits-small fuel n (ground arith)) (digit-InWord (b'0' + n) (ground arith), tt)
  | inr large ↦ rw (digits-large fuel n (ground arith)) (
      All-append (digits fuel (n / 10)) _ (digits-InWord fuel (n / 10))
        (digit-InWord (b'0' + n % 10) (ground arith), tt))
]

xdigit_value-digit : (d : ℕ) → d < 10 → xdigit_value (b'0' + d) ≡ d
unfolding xdigit_value
xdigit_value-digit d h = ground arith

parse_digits-snoc :
    (a m d : ℕ) (u : Bytes)
    → d < 10
    → parse_digits is_digit 10 a u ≡ some m
    → parse_digits is_digit 10 a (u ++ (b'0' + d) ∷ []) ≡ some (m * 10 + d)
unfolding parse_digits
parse_digits-snoc a m d [] h e =
    let v : is_digit (b'0' + d) ≡ true = ground arith in
    rw (v, xdigit_value-digit d h) (grind (arith, e))
parse_digits-snoc a m d (c ∷ u) h e = elim (Bool-cases (is_digit c)) [
  | inl v ↦ rw v (parse_digits-snoc (a * 10 + xdigit_value c) m d u h (ground arith))
  | inr n ↦ absurd (ground arith)
]

parse_digits-digits :
    (fuel n : ℕ) → n < 10 ^ fuel → parse_digits is_digit 10 0 (digits fuel n) ≡ some n
parse_digits-digits zero n h = rw (digits-zero n) (unfold parse_digits in ap some (omega arith))
parse_digits-digits (suc fuel) n h = elim (Bool-cases (ltb n 10)) [
  | inl small ↦ rw (digits-small fuel n (ground arith)) (
      parse_digits-snoc 0 0 n [] (ground arith) (unfold parse_digits in refl)
      ∙ ap some (omega arith))
  | inr large ↦ rw (digits-large fuel n (ground arith)) (
      parse_digits-snoc 0 (n / 10) (n % 10) (digits fuel (n / 10)) (omega arith)
        (parse_digits-digits fuel (n / 10) (omega arith))
      ∙ ap some (omega arith))
]

-- A number that is not 0 starts with another digit than 0.
abbrev StartsHigh : Bytes → Type 0
StartsHigh u = (c : ℕ) × (cs : Bytes) × (u ≡ c ∷ cs) × (b'0' < c) × (c ≤ b'9')

digits-StartsHigh : (fuel n : ℕ) → 0 < n → n < 10 ^ fuel → StartsHigh (digits fuel n)
digits-StartsHigh zero n h l = absurd (omega arith)
digits-StartsHigh (suc fuel) n h l = elim (Bool-cases (ltb n 10)) [
  | inl small ↦ (b'0' + n, [], digits-small fuel n (ground arith), omega arith, ground arith)
  | inr large ↦
      let (c, cs, e, low, high) = digits-StartsHigh fuel (n / 10) (ground arith) (omega arith) in
      (c, cs ++ (b'0' + n % 10) ∷ [], rw (digits-large fuel n (ground arith), e) refl, low, high)
]

parse_unsigned-decimal :
    (c n : ℕ) (cs : Bytes)
    → b'0' < c
    → parse_digits is_digit 10 0 (c ∷ cs) ≡ some n
    → parse_unsigned (c ∷ cs) ≡ some n
unfolding parse_unsigned
parse_unsigned-decimal c n [] h e = e
parse_unsigned-decimal c n (d ∷ cs) h e = let z : (c == b'0') ≡ false = ground arith in rw (z, e)

-- The digits of `n`: a first one, and that the value is `n`.
abbrev pub Decimal : ℕ → Type 0
Decimal n =
    (c : ℕ) × (cs : Bytes) × (to_string n ≡ c ∷ cs)
    × (is_digit c ≡ true)
    × (parse_unsigned (c ∷ cs) ≡ some n)

zero-Decimal : Decimal 0
unfolding to_string digits parse_unsigned xdigit_value
zero-Decimal = (b'0', [], refl, refl, refl)

pub to_string-Decimal : (n : ℕ) → n < 10 ^ 10 → Decimal n
to_string-Decimal n h = elim (Bool-cases (n == 0)) [
  | inl z ↦ subst Decimal (sym ((==_iff n 0).0 z)) zero-Decimal
  | inr p ↦
      let (c, cs, e, low, high) = digits-StartsHigh 10 n (ground arith) h in
      let value : parse_digits is_digit 10 0 (c ∷ cs) ≡ some n =
        subst (λ u. parse_digits is_digit 10 0 u ≡ some n) e (parse_digits-digits 10 n h) in
      (c, cs, to_string-digits n ∙ e, ground arith, parse_unsigned-decimal c n cs low value)
]

abbrev pub Fits : ℤ → Type 0
Fits n = fits_number n ≡ true

whole_strtol-positive :
    (c n : ℕ) (cs : Bytes)
    → is_digit c ≡ true
    → parse_unsigned (c ∷ cs) ≡ some n
    → n < 2 ^ 63
    → whole_strtol (c ∷ cs) ≡ some (pos n)
unfolding whole_strtol
whole_strtol-positive c n cs v u h =
    let minus : (c == b'-') ≡ false = ground arith in
    let plus : (c == b'+') ≡ false = ground arith in
    let room : ltb n (2 ^ 63) ≡ true = ground arith in
    rw (whole_strtol, minus, plus, u, minus, room) refl

whole_strtol-negative :
    (n : ℕ) (cs : Bytes)
    → parse_unsigned cs ≡ some (suc n)
    → n < 2 ^ 63
    → whole_strtol (b'-' ∷ cs) ≡ some (negsuc n)
unfolding whole_strtol
whole_strtol-negative n cs u h =
    let room : leb (suc n) (2 ^ 63) ≡ true = ground arith in rw (u, room) refl

-- A text that `strtol` takes.
word_value-whole :
    (strtod : Bytes → Option Double) (w : Bytes) (n : ℤ)
    → str_looks_like_double w ≡ true
    → whole_strtol w ≡ some n
    → Fits n
    → word_value strtod w ≡ number n
unfolding word_value
word_value-whole strtod w n looks e h = rw (word_value, looks, e, h) refl

looks-digit : (c : ℕ) (cs : Bytes) → is_digit c ≡ true → str_looks_like_double (c ∷ cs) ≡ true
unfolding str_looks_like_double
looks-digit c [] v = v
looks-digit c (d ∷ cs) v = rw v refl

-- What is printed for a number stands for it.
word_value-print_int :
    (strtod : Bytes → Option Double) (n : ℤ) → Fits n → word_value strtod (print_int n) ≡ number n
unfolding print_int
word_value-print_int strtod (pos n) h =
    let room : n < 2 ^ 29 = unfold fits_number in ground arith in
    let (c, cs, e, v, u) = to_string-Decimal n (omega arith) in
    rw e (
      word_value-whole strtod (c ∷ cs) (pos n) (looks-digit c cs v)
        (whole_strtol-positive c n cs v u (omega arith)) h)
word_value-print_int strtod (negsuc n) h =
    let room : n < 2 ^ 29 = unfold fits_number in ground arith in
    let (c, cs, e, v, u) = to_string-Decimal (suc n) (omega arith) in
    rw e (
      word_value-whole strtod (b'-' ∷ c ∷ cs) (negsuc n) (unfold str_looks_like_double in refl)
        (whole_strtol-negative n (c ∷ cs) u (omega arith)) h)

pub print_int-InWord : (n : ℤ) → All InWord (print_int n)
unfolding print_int
print_int-InWord (pos n) = rw (to_string-digits n) (digits-InWord 10 n)
print_int-InWord (negsuc n) =
    (unfold ends_word in refl, rw (to_string-digits (suc n)) (digits-InWord 10 (suc n)))

to_string-not_empty : (n : ℕ) → 0 < length (to_string n)
to_string-not_empty n = rw (to_string-digits n) (elim (Bool-cases (ltb n 10)) [
  | inl small ↦ rw (digits-small 9 n (ground arith)) (omega arith)
  | inr large ↦
      rw (digits-large 9 n (ground arith))
        (omega (arith, length-append (digits 9 (n / 10)) ((b'0' + n % 10) ∷ [])))
])

pub print_int-not_empty : (n : ℤ) → 0 < length (print_int n)
unfolding print_int
print_int-not_empty (pos n) = to_string-not_empty n
print_int-not_empty (negsuc n) = omega arith

pub number-read :
    (strtod : Bytes → Option Double) (n : ℤ) (t : Bytes)
    → Fits n
    → Delimits t
    → read_symbol_or_number strtod (print_int n ++ t) ≡ (number n, t)
number-read strtod n t h e =
    read_word_value strtod (print_int n) t (print_int-InWord n) (print_int-not_empty n)
      (Delimits-Ends t e)
    ∙ ap (λ x. (x, t)) (word_value-print_int strtod n h)
