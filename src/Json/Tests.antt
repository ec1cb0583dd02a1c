-- ===== src/Json/Tests.antt =====
-- Concrete texts, printed as JSON.
use readflex.Prelude.{◌≤◌, ◌<◌, ◌≡◌, refl, ◌⊎◌, [], ◌∷◌, ◌++◌, some, Bytes, codes, length}
use readflex.Failure.{ok, err, text_too_long}
use readflex.Json.Reader.RoundTrip.{read_string-json_string}
use readflex.Json.Reader.{read_string}
use readflex.Json.{max_text_bytes, hex_digit, escape_byte, escape, json_string, digits, to_string}

abbrev sample : Bytes
sample = b'a' ∷ b'"' ∷ b'\\' ∷ 10 ∷ 0xC3 ∷ 0xA9 ∷ []

test_json_string : json_string (b'a' ∷ b'"' ∷ 31 ∷ []) ≡ ok (codes "\"a\\\"\\u001f\"")
unfolding json_string escape escape_byte hex_digit
test_json_string = refl

test_to_string : to_string 1204 ≡ codes "1204"
unfolding to_string digits
test_to_string = refl

read_string-json_string_example :
    ((length sample ≤ max_text_bytes)
      × ((s : Bytes) × (json_string sample ≡ ok s)
          × (read_string (s ++ codes ",1") ≡ some (sample, codes ",1"))))
    ⊎ ((max_text_bytes < length sample) × (json_string sample ≡ err text_too_long))
read_string-json_string_example = read_string-json_string sample (codes ",1")
