-- ===== src/Exp/Text.antt =====
-- The texts of miniexp.cpp: `char_quoted`, `char_utf8`, `print_c_string`, and `append_utf8`. A text is
-- the list of its bytes; NUL may be one of them.
pub mod Utf8
use readflex.Prelude.{
  ℕ, zero, suc, ◌+◌, ◌-◌, ◌*◌, ◌/◌, ◌%◌, ◌^◌, ◌≤◌, Bool, true, false, not, ◌&&◌, ◌||◌, Option, none,
  some, List, [], ◌∷◌, ◌++◌, Bytes, codes, length, get_or, ltb, leb, ◌==◌, if◌then◌else◌,
}
use readflex.Ctype.{is_octal}

-- The bits of `*io->p_flags`.
pub record Flags : Type 0 where
  pub print7bits : Bool
  pub u4escape : Bool
  pub u6escape : Bool
  pub quotemoresymbols : Bool

unfoldable pub char_quoted : ℕ → Flags → Bool
char_quoted c flags =
    if leb 0x80 c && not flags.print7bits
    then false
    else if c == 0x7f || c == b'"' || c == b'\\'
    then true
    else not (leb 0x20 c && ltb c 0x7f)

-- The loop over the `n` bytes that continue a character, with those that are left.
unfoldable pub continue_utf8 : ℕ → ℕ → Bytes → Option (ℕ × Bytes)
continue_utf8 zero x s = some (x, s)
continue_utf8 (suc n) x [] = none
continue_utf8 (suc n) x (c ∷ s) =
    let rest = continue_utf8 n (x * 64 + c % 64) s in if c / 64 == 2 then rest else none

-- `lim[n]`.
abbrev smallest : ℕ → ℕ
smallest n = get_or (0 ∷ 0x80 ∷ 0x800 ∷ 0x10000 ∷ []) n 0

abbrev is_scalar : ℕ → ℕ → Bool
is_scalar n x = leb (smallest n) x && leb x 0x10ffff && not (leb 0xd800 x && leb x 0xdfff)

abbrev check_scalar : ℕ → Option (ℕ × Bytes) → Option (ℕ × Bytes)
check_scalar n none = none
check_scalar n (some (x, s)) = if is_scalar n x then some (x, s) else none

-- The character that starts with the byte `c`, before the bytes `s`, and the bytes behind it.
unfoldable pub char_utf8 : ℕ → Bytes → Option (ℕ × Bytes)
unfolding continue_utf8
char_utf8 c s =
    if ltb c 0xc0
    then if ltb c 0x80 then some (c, s) else none
    else if leb 0xf8 c
    then none
    else if ltb c 0xe0
    then check_scalar 1 (continue_utf8 1 (c % 32) s)
    else if ltb c 0xf0
    then check_scalar 2 (continue_utf8 2 (c % 16) s)
    else check_scalar 3 (continue_utf8 3 (c % 8) s)

unfoldable pub upper_digit : ℕ → ℕ
upper_digit i = get_or (codes "0123456789ABCDEF") i 0

-- `%04X` of a number below 2 ^ 16, and `%06X` below 2 ^ 24.
unfoldable pub hex_4 : ℕ → Bytes
unfolding upper_digit
hex_4 c =
    upper_digit (c / 4096 % 16)
    ∷ upper_digit (c / 256 % 16)
    ∷ upper_digit (c / 16 % 16)
    ∷ upper_digit (c % 16)
    ∷ []

unfoldable pub hex_6 : ℕ → Bytes
unfolding hex_4 upper_digit
hex_6 c = upper_digit (c / 2 ^ 20 % 16) ∷ upper_digit (c / 2 ^ 16 % 16) ∷ hex_4 (c % 2 ^ 16)

-- `%03o` of a byte.
unfoldable pub octal_3 : ℕ → Bytes
octal_3 c = (b'0' + c / 64 % 8) ∷ (b'0' + c / 8 % 8) ∷ (b'0' + c % 8) ∷ []

-- A decoded character, in the way that the flags ask for.
unfoldable pub unicode_escape : ℕ → Flags → Bytes
unfolding hex_4 hex_6
unicode_escape c flags =
    if leb c 0xffff && flags.u4escape
    then b'u' ∷ hex_4 c
    else if flags.u6escape
    then b'U' ∷ hex_6 c
    else b'u'
      ∷ (hex_4 (0xd800 + (c - 0x10000) / 1024 % 1024) ++ b'\\' ∷ b'u' ∷ hex_4 (0xdc00 + c % 1024))

-- `tr1[i]` for the `i` with `c == tr2[i]`.
unfoldable pub letter_for : ℕ → Option ℕ
letter_for c =
    if c == b'"'
    then some b'"'
    else if c == b'\\'
    then some b'\\'
    else if c == 9
    then some b't'
    else if c == 10
    then some b'n'
    else if c == 13
    then some b'r'
    else if c == 8
    then some b'b'
    else if c == 12
    then some b'f'
    else none

-- "\0", if no digit can be taken for a part of it, and else three digits.
unfoldable pub octal_escape : ℕ → Bytes → Bytes
unfolding octal_3
octal_escape c [] = if c == 0 then b'0' ∷ [] else octal_3 c
octal_escape c (d ∷ s) = if c == 0 && not (is_octal d) then b'0' ∷ [] else octal_3 c

-- What stands behind the backslash for the quoted byte `c` before `s`, and what is left of `s`.
unfoldable pub escape_char : ℕ → Flags → Bytes → Bytes × Bytes
unfolding letter_for unicode_escape octal_escape char_utf8
escape_char c flags s = elim (letter_for c) [
  | some l ↦ (l ∷ [], s)
  | none ↦ elim (if leb 0x80 c && (flags.u4escape || flags.u6escape) then char_utf8 c s else none) [
    | some (x, s') ↦ (unicode_escape x flags, s')
    | none ↦ (octal_escape c s, s)
  ]
]

-- The loop over the bytes. Each round takes one byte or more: their number is enough fuel.
unfoldable pub print_chars : ℕ → Flags → Bytes → Bytes
unfolding char_quoted escape_char
print_chars zero flags s = []
print_chars (suc fuel) flags [] = []
print_chars (suc fuel) flags (c ∷ s) = elim (char_quoted c flags) [
  | true ↦ let (out, s') = escape_char c flags s in b'\\' ∷ (out ++ print_chars fuel flags s')
  | false ↦ c ∷ print_chars fuel flags s
]

unfoldable pub print_c_string : Bytes → Flags → Bytes
unfolding print_chars
print_c_string s flags = b'"' ∷ (print_chars (length s) flags s ++ b'"' ∷ [])

-- What is appended for a character; nothing beyond the range of Unicode.
unfoldable pub append_utf8 : ℕ → Bytes
append_utf8 x =
    if ltb 0x10ffff x
    then []
    else if leb x 0x7f
    then x ∷ []
    else if leb x 0x7ff
    then (0xc0 + x / 64) ∷ (0x80 + x % 64) ∷ []
    else if leb x 0xffff
    then (0xe0 + x / 4096) ∷ (0x80 + x / 64 % 64) ∷ (0x80 + x % 64) ∷ []
    else (0xf0 + x / 2 ^ 18) ∷ (0x80 + x / 4096 % 64) ∷ (0x80 + x / 64 % 64) ∷ (0x80 + x % 64) ∷ []
