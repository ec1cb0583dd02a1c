-- ===== src/Outline/Number.antt =====
-- The decimal numbers that the adapter prints are read back by `strtol`.
use native.Mathlib.Nat.{pow-suc}
use readflex.Prelude.{
  ℕ, zero, suc, ◌+◌, ◌*◌, ◌/◌, ◌%◌, ◌^◌, ◌<◌, ◌≡◌, refl, sym, ap, ◌∙◌, arith, [], ◌∷◌, ◌++◌,
  append_assoc, append-nil, Bytes, true, ltb, Bool-cases, inl, inr, pos, ltb→lt,
}
use readflex.Json.Bounds.{digits-small, digits-large, digits-zero, to_string-digits}
use readflex.Json.{digits, to_string}
use readflex.Outline.{read_digits, skip_space, signed, strtol}

read_digits-digit :
    (n d k : ℕ) (rest : Bytes)
    → d < 10
    → k ≡ n * 10 + d
    → read_digits n ((b'0' + d) ∷ rest) ≡ read_digits k rest
unfolding read_digits
read_digits-digit n d k rest h e = rw e (ground arith)

read_digits-nil : (n : ℕ) → read_digits n [] ≡ (n, [])
unfolding read_digits
read_digits-nil n = refl

-- Printed digits are read as the number, whatever stands behind them.
read_digits-digits :
    (fuel n : ℕ) (rest : Bytes)
    → n < 10 ^ fuel
    → read_digits 0 (digits fuel n ++ rest) ≡ read_digits n rest
read_digits-digits zero n rest h = let e : n ≡ 0 = omega arith in rw (e, digits-zero 0)
read_digits-digits (suc fuel) n rest h = elim (Bool-cases (ltb n 10)) [
  | inl small ↦
      rw (digits-small fuel n (ltb→lt _ _ small))
        (read_digits-digit 0 n n rest (ltb→lt _ _ small) (omega arith))
  | inr large ↦
      rw (digits-large fuel n (ground arith), append_assoc)
        (read_digits-digits fuel (n / 10) _ (omega (arith, pow-suc 10 fuel))
          ∙ read_digits-digit (n / 10) (n % 10) n rest (omega arith) (omega arith))
]

-- They begin with a digit.
digits-head :
    (fuel n : ℕ)
    → n < 10 ^ suc fuel
    → (d : ℕ) × (cs : Bytes) × (digits (suc fuel) n ≡ (b'0' + d) ∷ cs) × (d < 10)
digits-head zero n h = (n, [], digits-small 0 n (omega arith), omega arith)
digits-head (suc fuel) n h = elim (Bool-cases (ltb n 10)) [
  | inl small ↦ (n, [], digits-small (suc fuel) n (ltb→lt _ _ small), ltb→lt _ _ small)
  | inr large ↦
      let (d, cs, e, small) = digits-head fuel (n / 10) (omega (arith, pow-suc 10 (suc fuel))) in
      (
        d,
        cs ++ (b'0' + n % 10) ∷ [],
        digits-large (suc fuel) n (ground arith) ∙ ap (λ l. l ++ (b'0' + n % 10) ∷ []) e,
        small,
      )
]

-- A text of digits alone, as `strtol` takes it.
strtol-digits :
    (d n : ℕ) (cs : Bytes)
    → d < 10
    → n < 10 ^ 10
    → read_digits 0 ((b'0' + d) ∷ cs) ≡ (n, [])
    → strtol ((b'0' + d) ∷ cs) ≡ record { value = pos n; rest = []; found = true }
unfolding strtol signed skip_space
strtol-digits d n cs h small e = ground arith

-- `strtol` reads back every number of at most ten digits that `std::to_string` prints, to the end.
pub strtol-to_string :
    (n : ℕ) → n < 10 ^ 10 → strtol (to_string n) ≡ record { value = pos n; rest = []; found = true }
strtol-to_string n h =
    let (d, cs, e, small) = digits-head 9 n h in
    rw (to_string-digits n, e)
      (strtol-digits d n cs small h (
        ap (read_digits 0) (sym e ∙ sym (append-nil (digits 10 n)))
        ∙ read_digits-digits 10 n [] h
        ∙ read_digits-nil n))
