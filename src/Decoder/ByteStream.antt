-- ===== src/Decoder/ByteStream.antt =====
-- The readers and writers of upstream/libdjvu/ByteStream.cpp that the chunks of text and of bookmarks
-- use: `read8`, `read16`, `read24`, `write8`, `write16`, `write24`, on the bytes that are left.
pub mod Numbers
pub mod Ensures
use readflex.Prelude.{
  ℕ, zero, suc, ◌+◌, ◌-◌, ◌*◌, ◌/◌, ◌%◌, ◌^◌, List, [], ◌∷◌, ◌++◌, Bytes, ◌≡◌, refl, ℤ, pos, negsuc,
  sub_ℕ,
}

-- What is thrown. `out_of_fuel` is no exception: the model's loops have run out of fuel.
pub data Problem : Type 0 where
  end_of_file corrupt_text corrupt_chunk no_text too_many_children out_of_fuel : Problem
  bad_version : ℕ → Problem

pub data ReadResult {ℓ} (A : Type ℓ) : Type ℓ where
  got : A → Bytes → ReadResult A
  fails : Problem → ReadResult A

abbrev pub Reader {ℓ} : Type ℓ → Type ℓ
Reader A = Bytes → ReadResult A

module _ {ℓ} {A : Type ℓ} where
  abbrev pub pure : A → Reader A
  pure a bs = got a bs

  abbrev pub throw : Problem → Reader A
  throw problem bs = fails problem

infixl 10 ◌>>=◌
abbrev pub ◌>>=◌ {ℓ κ} : {A : Type ℓ} {B : Type κ} → Reader A → (A → Reader B) → Reader B
(m >>= f) bs = elim (m bs) [ got a rest ↦ f a rest | fails problem ↦ fails problem ]

unfoldable pub read8 : Reader ℕ
read8 (a ∷ bs) = got a bs
read8 _ = fails end_of_file

unfoldable pub read16 : Reader ℕ
read16 (a ∷ b ∷ bs) = got (a * 256 + b) bs
read16 _ = fails end_of_file

unfoldable pub read24 : Reader ℕ
read24 (a ∷ b ∷ c ∷ bs) = got ((a * 256 + b) * 256 + c) bs
read24 _ = fails end_of_file

unfoldable pub write8 : ℕ → Bytes
write8 card = card % 256 ∷ []

unfoldable pub write16 : ℕ → Bytes
write16 card = card / 2 ^ 8 % 256 ∷ card % 256 ∷ []

unfoldable pub write24 : ℕ → Bytes
write24 card = card / 2 ^ 16 % 256 ∷ card / 2 ^ 8 % 256 ∷ card % 256 ∷ []

pub >>=-got {ℓ κ} :
    {A : Type ℓ} {B : Type κ} (m : Reader A) (f : A → Reader B) (bs rest : Bytes) (a : A)
    → m bs ≡ got a rest
    → (m >>= f) bs ≡ f a rest
>>=-got m f bs rest a e = rw (e, ◌>>=◌) refl
