-- ===== src/Json/Reader.antt =====
-- A reader of JSON strings, from the grammar of RFC 8259. Of the escapes `\uXXXX` it takes those that
-- stand for one byte of UTF-8. It knows nothing of the printer.
pub mod RoundTrip
use readflex.Prelude.{
  ℕ, ◌+◌, ◌-◌, ◌*◌, ◌≤◌, Bool, true, false, ◌&&◌, ◌||◌, Option, none, some, List, [], ◌∷◌, Bytes,
  ltb, leb, ◌==◌, if◌then◌else◌,
}

abbrev within : ℕ → ℕ → ℕ → Bool
within lo hi c = leb lo c && leb c hi

-- The value of a hexadecimal digit, and 16 for any other byte.
pub hex_value : ℕ → ℕ
hex_value c =
    if within b'0' b'9' c
    then c - b'0'
    else if within b'a' b'f' c
    then c - b'a' + 10
    else if within b'A' b'F' c
    then c - b'A' + 10
    else 16

-- The byte that a short escape stands for.
pub short_escape : ℕ → Option ℕ
short_escape c =
    if c == b'"' || c == b'\\' || c == b'/'
    then some c
    else if c == b'b'
    then some 8
    else if c == b'f'
    then some 12
    else if c == b'n'
    then some 10
    else if c == b'r'
    then some 13
    else if c == b't'
    then some 9
    else none

pub four_digits : ℕ → ℕ → ℕ → ℕ → Option ℕ
unfolding hex_value
four_digits a b c d =
    if ltb (hex_value a) 16 && ltb (hex_value b) 16 && ltb (hex_value c) 16 && ltb (hex_value d) 16
    then some (((hex_value a * 16 + hex_value b) * 16 + hex_value c) * 16 + hex_value d)
    else none

abbrev pub one_byte : Option ℕ → Option ℕ
one_byte none = none
one_byte (some n) = if ltb n 0x80 then some n else none

abbrev pub add_byte : Option ℕ → Option (Bytes × Bytes) → Option (Bytes × Bytes)
add_byte none r = none
add_byte (some c) none = none
add_byte (some c) (some (cs, rest)) = some (c ∷ cs, rest)

-- The text up to the closing quote, and what stands behind it.
mutual
  pub read_body : Bytes → Option (Bytes × Bytes)
  read_body [] = none
  read_body (c ∷ cs) =
      let plain = add_byte (some c) (read_body cs) in
      let escaped = read_escape cs in
      if c == b'"'
      then some ([], cs)
      else if c == b'\\'
      then escaped
      else if ltb c 0x20
      then none
      else plain

  pub read_escape : Bytes → Option (Bytes × Bytes)
  read_escape [] = none
  read_escape (c ∷ cs) =
      let short = add_byte (short_escape c) (read_body cs) in
      let long = read_unicode cs in if c == b'u' then long else short

  pub read_unicode : Bytes → Option (Bytes × Bytes)
  read_unicode (a ∷ b ∷ c ∷ d ∷ cs) = add_byte (one_byte (four_digits a b c d)) (read_body cs)
  read_unicode _ = none

pub read_string : Bytes → Option (Bytes × Bytes)
read_string [] = none
read_string (c ∷ cs) = if c == b'"' then read_body cs else none
