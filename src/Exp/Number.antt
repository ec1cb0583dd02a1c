-- ===== src/Exp/Number.antt =====
-- The numbers of miniexp.cpp: `miniexp_number`, `miniexp_double`, `str_looks_like_double` and
-- `str_is_double`, with `strtol(s, &end, 0)` as the C standard states it. Of a double, only the value
-- matters, and only if it is whole: any other is an object. `strtod` is a parameter.
use readflex.Ctype.{is_digit, is_octal, is_xdigit, xdigit_value}
use readflex.Prelude.{
  ℕ, zero, suc, ◌+◌, ◌-◌, ◌*◌, ◌^◌, Bool, true, false, ◌&&◌, ◌||◌, Option, none, some, [], ◌∷◌,
  Bytes, ltb, leb, ◌==◌, if◌then◌else◌, ℤ, pos, negsuc, ltb_ℤ, leb_ℤ,
}
use readflex.Exp.{Exp, number, object}

pub data Double : Type 0 where
  whole : ℤ → Double
  fraction : Double

-- The numbers that fit beside the tag of two bits in an `int`.
unfoldable pub fits_number : ℤ → Bool
fits_number n = leb_ℤ (negsuc (2 ^ 29 - 1)) n && ltb_ℤ n (pos (2 ^ 29))

unfoldable pub double : Double → Exp
unfolding fits_number
double (whole n) = if fits_number n then number n else object
double fraction = object

-- The digits of a text in a base, if it has no other characters.
unfoldable pub parse_digits : (ℕ → Bool) → ℕ → ℕ → Bytes → Option ℕ
parse_digits is_valid base n [] = some n
parse_digits is_valid base n (c ∷ cs) =
    let rest = parse_digits is_valid base (n * base + xdigit_value c) cs in
    if is_valid c then rest else none

unfoldable parse_hex : Bytes → Option ℕ
unfolding parse_digits
parse_hex [] = none
parse_hex (c ∷ cs) = parse_digits is_xdigit 16 0 (c ∷ cs)

-- The part behind the sign: "0x" and "0" say the base.
unfoldable pub parse_unsigned : Bytes → Option ℕ
unfolding parse_digits parse_hex
parse_unsigned [] = none
parse_unsigned (c ∷ []) = parse_digits is_digit 10 0 (c ∷ [])
parse_unsigned (c ∷ d ∷ cs) =
    if c == b'0' && (d == b'x' || d == b'X')
    then parse_hex cs
    else if c == b'0'
    then parse_digits is_octal 8 0 (d ∷ cs)
    else parse_digits is_digit 10 0 (c ∷ d ∷ cs)

-- Out of the range of `long`, `errno` is set.
abbrev in_long : Bool → ℕ → Option ℤ
in_long true n = if leb n (2 ^ 63) then some (elim n [ zero ↦ pos 0 | suc m ↦ negsuc m ]) else none
in_long false n = if ltb n (2 ^ 63) then some (pos n) else none

-- The value of the text if `strtol` takes it to the end, without an error.
unfoldable pub whole_strtol : Bytes → Option ℤ
unfolding parse_unsigned
whole_strtol [] = none
whole_strtol (c ∷ cs) =
    let is_negative = c == b'-' in
    elim (parse_unsigned (if c == b'-' || c == b'+' then cs else c ∷ cs)) [
      | none ↦ none
      | some n ↦ in_long is_negative n
    ]

unfoldable pub str_looks_like_double : Bytes → Bool
str_looks_like_double [] = false
str_looks_like_double (c ∷ []) = is_digit c
str_looks_like_double (c ∷ _ ∷ _) = is_digit c || c == b'+' || c == b'-'

unfoldable pub str_is_double : (Bytes → Option Double) → Bytes → Option Double
unfolding whole_strtol str_looks_like_double
str_is_double strtod s =
    if str_looks_like_double s
    then (elim (whole_strtol s) [ some n ↦ some (whole n) | none ↦ strtod s ])
    else none
