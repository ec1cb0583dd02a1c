-- ===== src/Json/Bounds.antt =====
-- What `json_string` and `allocated` return.
use readflex.Prelude.{
  suc, ◌+◌, ◌<◌, ◌/◌, ◌%◌, refl, [], ◌∷◌, ◌++◌, ℕ, ◌*◌, ◌≤◌, ◌≡◌, arith, Bool, Bytes, length,
}
use readflex.Failure.{ok, Ensures, Named}
use readflex.Json.{max_text_bytes, escape, json_string, allocated, digits, to_string}

-- The caller gets the text itself, in at most four times the limit for one text.
pub allocated-ok :
    (has_memory : Bool) (out : Bytes) {s : Bytes}
    → allocated has_memory out ≡ ok s
    → (s ≡ out) × (length s ≤ max_text_bytes * 4)
unfolding allocated
allocated-ok has_memory out e = ground arith

unfoldable pub quoted : Bytes → Bytes
quoted value = b'"' ∷ (escape value ++ b'"' ∷ [])

pub json_string-quoted : (value : Bytes) → Ensures (λ s. s ≡ quoted value) (json_string value)
unfolding json_string quoted
json_string-quoted value = ground arith

pub digits-small : (fuel n : ℕ) → n < 10 → digits (suc fuel) n ≡ (b'0' + n) ∷ []
unfolding digits
digits-small fuel n h = ground arith

pub digits-large :
    (fuel n : ℕ) → 10 ≤ n → digits (suc fuel) n ≡ digits fuel (n / 10) ++ (b'0' + n % 10) ∷ []
unfolding digits
digits-large fuel n h = ground arith

pub digits-zero : (n : ℕ) → digits 0 n ≡ []
unfolding digits
digits-zero n = refl

pub to_string-digits : (n : ℕ) → to_string n ≡ digits 10 n
unfolding to_string
to_string-digits n = refl

pub json_string-Named : (value : Bytes) → Named (json_string value)
unfolding json_string
json_string-Named value = ground arith

pub allocated-Named : (has_memory : Bool) (out : Bytes) → Named (allocated has_memory out)
unfolding allocated
allocated-Named has_memory out = ground arith
