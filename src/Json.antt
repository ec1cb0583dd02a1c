-- ===== src/Json.antt =====
-- `json_string` and `allocated` of pagecraft_djvu.cpp, and `std::to_string` for the numbers that the
-- adapter prints. A `std::string` is the list of its bytes.
pub mod Reader
pub mod Bounds
mod Tests
use readflex.Prelude.{
  ℕ, zero, suc, ◌+◌, ◌*◌, ◌/◌, ◌%◌, Bool, true, false, ◌||◌, List, [], ◌∷◌, ◌++◌, Bytes, codes,
  length, get_or, ltb, ◌==◌, if◌then◌else◌, ℤ, pos, negsuc,
}
use readflex.Failure.{
  Result, ok, err, ◌>>=◌, ◌>>◌, reject, text_too_long, result_too_long, bad_alloc,
}

abbrev pub max_text_bytes : ℕ
max_text_bytes = 8 * 1024 * 1024

-- `hex[i]`.
unfoldable pub hex_digit : ℕ → ℕ
hex_digit i = get_or (codes "0123456789abcdef") i 0

-- What the loop appends for one byte.
unfoldable pub escape_byte : ℕ → Bytes
escape_byte ch =
    if ch == b'"' || ch == b'\\'
    then b'\\' ∷ ch ∷ []
    else if ltb ch 0x20
    then b'\\' ∷ b'u' ∷ b'0' ∷ b'0' ∷ hex_digit (ch / 16) ∷ hex_digit (ch % 16) ∷ []
    else ch ∷ []

unfoldable pub escape : Bytes → Bytes
escape [] = []
escape (ch ∷ value) = escape_byte ch ++ escape value

unfoldable pub json_string : Bytes → Result Bytes
json_string value =
    reject (ltb max_text_bytes (length value)) text_too_long
    >> ok (b'"' ∷ (escape value ++ b'"' ∷ []))

-- The bytes of the C string that the caller gets; `has_memory` is whether `malloc` succeeds.
unfoldable pub allocated : Bool → Bytes → Result Bytes
allocated has_memory text = do
  reject (ltb (max_text_bytes * 4) (length text)) result_too_long
  if has_memory then ok text else err bad_alloc

-- The decimal digits of a number below `10 ^ fuel`.
unfoldable pub digits : ℕ → ℕ → Bytes
digits zero n = []
digits (suc fuel) n =
    let rest = digits fuel (n / 10) ++ (b'0' + n % 10) ∷ [] in
    if ltb n 10 then (b'0' + n) ∷ [] else rest

-- `std::to_string` of a number that is not negative: an `int` has at most ten digits.
unfoldable pub to_string : ℕ → Bytes
to_string n = digits 10 n
