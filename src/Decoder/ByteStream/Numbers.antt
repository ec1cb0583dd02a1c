-- ===== src/Decoder/ByteStream/Numbers.antt =====
-- What is written is read back, and a byte that is read is no longer left.
use readflex.Prelude.{ℕ, ◌^◌, ◌<◌, ◌≡◌, ap, ◌++◌, Bytes, arith}
use readflex.Decoder.ByteStream.{got, read8, read16, read24, write8, write16, write24}

pub read8-write8 : (n : ℕ) (rest : Bytes) → n < 2 ^ 8 → read8 (write8 n ++ rest) ≡ got n rest
unfolding read8 write8
read8-write8 n rest h = ap (λ (m : ℕ). got m rest) (omega arith)

pub read16-write16 : (n : ℕ) (rest : Bytes) → n < 2 ^ 16 → read16 (write16 n ++ rest) ≡ got n rest
unfolding read16 write16
read16-write16 n rest h = ap (λ (m : ℕ). got m rest) (omega arith)

pub read24-write24 : (n : ℕ) (rest : Bytes) → n < 2 ^ 24 → read24 (write24 n ++ rest) ≡ got n rest
unfolding read24 write24
read24-write24 n rest h = ap (λ (m : ℕ). got m rest) (omega arith)
