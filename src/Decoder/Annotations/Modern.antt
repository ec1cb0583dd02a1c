-- ===== src/Decoder/Annotations/Modern.antt =====
-- The characters that `anno_fgetc` gives for a chunk in the older syntax.
use readflex.Decoder.Annotations.{
  Mode, outside, quoted, escaped, is_old, anno_compat, anno_char, anno_stream,
}
use readflex.Exp.Text.{octal_3}
use readflex.Prelude.{◌<◌, ◌≡◌, refl, arith, All, true, false, Bool-cases, inl, inr, [], ◌∷◌, Bytes}

stream-Modern :
    (mode : Mode) (s : Bytes) → All (λ c. c < 256) s → is_old mode (anno_stream true mode s) ≡ false
unfolding is_old anno_stream anno_char octal_3
stream-Modern outside [] h = refl
stream-Modern quoted [] h = refl
stream-Modern escaped [] h = refl
stream-Modern outside (c ∷ s) (h, hs) =
    let within = stream-Modern quoted s hs in let after = stream-Modern outside s hs in ground arith
stream-Modern quoted (c ∷ s) (h, hs) =
    let end = stream-Modern outside s hs in
    let escape = stream-Modern escaped s hs in let more = stream-Modern quoted s hs in ground arith
stream-Modern escaped (c ∷ s) (h, hs) = let more = stream-Modern quoted s hs in ground arith

stream-same : (mode : Mode) (s : Bytes) → anno_stream false mode s ≡ s
unfolding anno_stream anno_char
stream-same mode [] = refl
stream-same mode (c ∷ s) = rw (stream-same mode s) refl

-- What is read of any chunk is in the modern syntax: as it is, or with the escapes that are made on the
-- fly.
pub anno_compat-anno_stream :
    (s : Bytes) → All (λ c. c < 256) s → anno_compat (anno_stream (anno_compat s) outside s) ≡ false
unfolding anno_compat
anno_compat-anno_stream s h = elim (Bool-cases (is_old outside s)) [
  | inl old ↦ rw old (stream-Modern outside s h)
  | inr modern ↦ rw (modern, stream-same outside s) modern
]
