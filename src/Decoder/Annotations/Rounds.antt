-- ===== src/Decoder/Annotations/Rounds.antt =====
-- The rounds of `anno_sub`.
use readflex.Decoder.Annotations.{outside, anno_compat, anno_stream, raw_left}
use readflex.Exp.Number.{Double}
use readflex.Exp.Reader.{miniexp_read_r, is_dummy}
use readflex.Exp.{Exp, cons}
use readflex.Prelude.{ℕ, ◌-◌, ◌≡◌, ◌≢◌, Option, List, [], ◌∷◌, Bytes, length, if◌then◌else◌}

-- What the reader gets of a chunk.
abbrev pub stream_of : Bytes → Bytes
stream_of s = anno_stream (anno_compat s) outside s

module _ (strtod : Bytes → Option Double) (s : Bytes) where
  -- The characters that are taken out of the chunk's stream once the reader has stopped in front of
  -- `left`, of which it has looked at the first.
  abbrev pub used : Bytes → ℕ
  used left = length (stream_of s) - (length left - 1)

  -- The expressions that are read of the chunk one behind the other, from `left` on, with `n` characters
  -- of the stream taken. There are no more only where nothing is left of the chunk.
  pub data Reads : ℕ → Bytes → List Exp → Type 0 where
    used_up : {n : ℕ} {left : Bytes} → raw_left (anno_compat s) outside n s ≡ [] → Reads n left []
    one_more :
        {n : ℕ} {left rest : Bytes} {a : Exp} {es : List Exp}
        → raw_left (anno_compat s) outside n s ≢ []
        → miniexp_read_r strtod left ≡ (a, rest)
        → Reads (used rest) rest es
        → Reads n left (a ∷ es)

-- The list that the loop makes of the expressions, behind the one that it starts with.
pub collected : List Exp → Exp → Exp
collected [] result = result
collected (a ∷ es) result = collected es (if is_dummy a then result else cons a result)
