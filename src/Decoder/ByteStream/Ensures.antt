-- ===== src/Decoder/ByteStream/Ensures.antt =====
-- What holds of a value that a reader gives, and of the bytes that are left. A reader that ensures
-- anything does not run out of fuel.
use readflex.Prelude.{ℕ, zero, suc, drop, ◌+◌, ◌<◌, ◌≡◌, ◌≢◌, [], ◌∷◌, Bytes, arith, length, All}
use readflex.Decoder.ByteStream.{
  ReadResult, Reader, got, fails, ◌>>=◌, read8, read16, read24, out_of_fuel,
}

abbrev pub Ensures {ℓ} : {A : Type ℓ} → (A → Bytes → Type 0) → ReadResult A → Type 0
Ensures Q (got a rest) = Q a rest
Ensures Q (fails problem) = problem ≢ out_of_fuel

pub bind-Ensures {ℓ κ} :
    {A : Type ℓ} {B : Type κ} (P : A → Bytes → Type 0) (Q : B → Bytes → Type 0) (m : Reader A)
    (f : A → Reader B) (bs : Bytes)
    → Ensures P (m bs)
    → ((a : A) (rest : Bytes) → P a rest → Ensures Q (f a rest))
    → Ensures Q ((m >>= f) bs)
bind-Ensures {A = A} {B = B} P Q m f bs h k = go (m bs) h
  where
    go :
        (r : ReadResult A)
        → Ensures P r
        → Ensures Q (elim r as (λ r. ReadResult B) [
          | got a rest ↦ f a rest
          | fails problem ↦ fails problem
        ])
    go (got a rest) h = k a rest h
    go (fails problem) h = h

pub weaken-Ensures {ℓ} :
    {A : Type ℓ} (P Q : A → Bytes → Type 0) (r : ReadResult A)
    → ((a : A) (rest : Bytes) → P a rest → Q a rest)
    → Ensures P r
    → Ensures Q r
weaken-Ensures P Q (got a rest) k h = k a rest h
weaken-Ensures P Q (fails problem) k h = h

-- The stream has `n` bytes less than before, and bytes only.
abbrev pub AreBytes : Bytes → Type 0
AreBytes bs = All (λ (b : ℕ). b < 256) bs

abbrev pub Takes : ℕ → Bytes → Bytes → Type 0
Takes n bs rest = (n + length rest ≡ length bs) × AreBytes rest

-- A number below `limit`, of `n` bytes.
abbrev pub IsNumber : ℕ → ℕ → Bytes → ℕ → Bytes → Type 0
IsNumber limit n bs a rest = a < limit × Takes n bs rest

pub read8-Ensures : (bs : Bytes) → AreBytes bs → Ensures (IsNumber 256 1 bs) (read8 bs)
unfolding read8
read8-Ensures [] h = ground arith
read8-Ensures (a ∷ bs) (ha, h) = (ha, (omega arith, h))

pub read16-Ensures : (bs : Bytes) → AreBytes bs → Ensures (IsNumber 65536 2 bs) (read16 bs)
unfolding read16
read16-Ensures [] h = ground arith
read16-Ensures (a ∷ []) h = ground arith
read16-Ensures (a ∷ b ∷ bs) (ha, (hb, h)) = (omega arith, (omega arith, h))

pub read24-Ensures : (bs : Bytes) → AreBytes bs → Ensures (IsNumber 16777216 3 bs) (read24 bs)
unfolding read24
read24-Ensures [] h = ground arith
read24-Ensures (a ∷ []) h = ground arith
read24-Ensures (a ∷ b ∷ []) h = ground arith
read24-Ensures (a ∷ b ∷ c ∷ bs) (ha, (hb, (hc, h))) = (omega arith, (omega arith, h))

pub drop-AreBytes : (n : ℕ) (bs : Bytes) → AreBytes bs → AreBytes (drop n bs)
drop-AreBytes zero bs h = h
drop-AreBytes (suc n) [] h = h
drop-AreBytes (suc n) (b ∷ bs) (hb, h) = drop-AreBytes n bs h
