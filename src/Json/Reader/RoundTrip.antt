-- ===== src/Json/Reader/RoundTrip.antt =====
-- `json_string` prints a JSON string that reads back as the value.
use readflex.Prelude.{
  ℕ, ◌*◌, ◌/◌, ◌%◌, ◌≤◌, ◌<◌, ◌≡◌, refl, some, ap, ◌∙◌, ◌⊎◌, inl, inr, Bool-cases, ltb→lt, [], ◌∷◌,
  ◌++◌, append_assoc, Bytes, length, length-append, arith, ◌==◌, ==_iff, ltb, all_below,
  all_below-true,
}
use readflex.Failure.{ok, err, text_too_long}
use readflex.Json.Reader.{
  hex_value, short_escape, four_digits, add_byte, read_body, read_escape, read_unicode, read_string,
}
use readflex.Json.{max_text_bytes, hex_digit, escape_byte, escape, json_string}

hex_value-hex_digit : (n : ℕ) → n < 16 → hex_value (hex_digit n) ≡ n
unfolding hex_value hex_digit all_below
hex_value-hex_digit n h =
    (==_iff _ n).0 (all_below-true 16 (λ i. hex_value (hex_digit i) == i) n refl h)

read_body-escape_byte :
    (ch : ℕ) (rest : Bytes)
    → read_body (escape_byte ch ++ rest) ≡ add_byte (some ch) (read_body rest)
unfolding escape_byte read_body read_escape read_unicode short_escape four_digits
read_body-escape_byte ch rest =
    ground (arith, hex_value-hex_digit (ch / 16), hex_value-hex_digit (ch % 16))

read_body-escape :
    (value rest : Bytes) → read_body (escape value ++ b'"' ∷ rest) ≡ some (value, rest)
unfolding escape
read_body-escape [] rest = unfold read_body in refl
read_body-escape (ch ∷ value) rest =
    rw (append_assoc (escape_byte ch) (escape value) (b'"' ∷ rest)) (
      read_body-escape_byte ch (escape value ++ b'"' ∷ rest)
      ∙ ap (add_byte (some ch)) (read_body-escape value rest))

-- A value within the size limit is printed as a string from which the reader gets the value
-- back, with what stands behind it untouched; a longer one is refused.
pub read_string-json_string :
    (value rest : Bytes)
    → ((length value ≤ max_text_bytes)
        × ((s : Bytes) × (json_string value ≡ ok s)
            × (read_string (s ++ rest) ≡ some (value, rest))))
      ⊎ ((max_text_bytes < length value) × (json_string value ≡ err text_too_long))
unfolding json_string read_string
read_string-json_string value rest = elim (Bool-cases (ltb max_text_bytes (length value))) [
  | inl long ↦ inr (ltb→lt _ _ long, rw long)
  | inr fits ↦ inl (
    ground arith,
    (b'"' ∷ (escape value ++ b'"' ∷ []), rw fits, rw append_assoc (read_body-escape value rest)),
  )
]

length-escape_byte : (ch : ℕ) → length (escape_byte ch) ≤ 6
unfolding escape_byte
length-escape_byte ch = ground arith

-- Escaping makes a text at most six times as long.
length-escape-le : (value : Bytes) → length (escape value) ≤ 6 * length value
unfolding escape
length-escape-le [] = omega arith
length-escape-le (ch ∷ value) = omega (
  arith,
  length-append (escape_byte ch) (escape value),
  length-escape_byte ch,
  length-escape-le value,
)
