-- ===== src/Decoder/Text/Reads.antt =====
-- What the fields of a zone are, once they are read.
use readflex.Decoder.ByteStream.Ensures.{
  Ensures, bind-Ensures, AreBytes, Takes, IsNumber, read8-Ensures, read16-Ensures, read24-Ensures,
}
use readflex.Decoder.ByteStream.{Reader, pure, ◌>>=◌, read8, read16, read24}
use readflex.Decoder.Text.Bounds.{HasShorts}
use readflex.Decoder.Text.{Fields, read_offset, read_fields, read_type}
use readflex.Prelude.{
  ℕ, ◌≤◌, ◌||◌, Bytes, arith, ℤ, sub_ℕ, sub_ℕ-IsWithin, IsWithin, ltb, inl, inr, Bool-cases,
}

read_offset-Ensures :
    (bs : Bytes)
    → AreBytes bs
    → Ensures (λ x rest. IsWithin 32768 x × Takes 2 bs rest) (read_offset bs)
unfolding read_offset
read_offset-Ensures bs h =
    bind-Ensures (IsNumber 65536 2 bs) (λ x rest. IsWithin 32768 x × Takes 2 bs rest) read16
      (λ n. pure (sub_ℕ n 32768)) bs (read16-Ensures bs h)
      λ n rest (small, left). (sub_ℕ-IsWithin 32768 n 32768 (omega arith) (omega arith), left)

then_offset :
    {B : Type 0} (Q : B → Bytes → Type 0) (f : ℤ → Reader B) (bs : Bytes)
    → AreBytes bs
    → ((x : ℤ) (rest : Bytes) → IsWithin 32768 x → Takes 2 bs rest → Ensures Q (f x rest))
    → Ensures Q ((read_offset >>= f) bs)
then_offset Q f bs h k =
    bind-Ensures (λ x rest. IsWithin 32768 x × Takes 2 bs rest) Q read_offset f bs
      (read_offset-Ensures bs h) (λ x rest (near, left). k x rest near left)

pub then_24 :
    {B : Type 0} (Q : B → Bytes → Type 0) (f : ℕ → Reader B) (bs : Bytes)
    → AreBytes bs
    → ((n : ℕ) (rest : Bytes) → Takes 3 bs rest → Ensures Q (f n rest))
    → Ensures Q ((read24 >>= f) bs)
then_24 Q f bs h k =
    bind-Ensures (IsNumber 16777216 3 bs) Q read24 f bs (read24-Ensures bs h)
      (λ n rest (small, left). k n rest left)

pub read_fields-Ensures :
    (bs : Bytes) → AreBytes bs → Ensures (λ f rest. HasShorts f × Takes 16 bs rest) (read_fields bs)
unfolding read_fields
read_fields-Ensures bs h =
    let Q : Fields → Bytes → Type 0 = λ f rest. HasShorts f × Takes 16 bs rest in
    then_offset Q _ bs h λ x bs_1 hx (n_1, h_1). then_offset Q _ bs_1 h_1 λ y bs_2 hy (n_2, h_2).
      then_offset Q _ bs_2 h_2 λ width bs_3 hw (n_3, h_3).
        then_offset Q _ bs_3 h_3 λ height bs_4 hh (n_4, h_4).
          then_offset Q _ bs_4 h_4 λ start bs_5 hs (n_5, h_5).
            then_24 Q _ bs_5 h_5 λ length bs_6 (n_6, h_6).
              then_24 Q _ bs_6 h_6
                λ size bs_7 (n_7, h_7). ((hx, (hy, (hw, hh))), (omega arith, h_7))

-- A type of zones.
abbrev pub IsType : ℕ → Type 0
IsType ztype = 1 ≤ ztype × ztype ≤ 7

pub read_type-Ensures :
    (bs : Bytes)
    → AreBytes bs
    → Ensures (λ ztype rest. IsType ztype × Takes 1 bs rest) (read_type bs)
unfolding read_type
read_type-Ensures bs h =
    bind-Ensures (IsNumber 256 1 bs) (λ ztype rest. IsType ztype × Takes 1 bs rest) read8 _ bs
      (read8-Ensures bs h)
      λ ztype rest (small, left). elim (Bool-cases (ltb ztype 1 || ltb 7 ztype)) [
        | inl e ↦ rw e (ground arith)
        | inr e ↦ rw e ((ground arith, ground arith), left)
      ]
