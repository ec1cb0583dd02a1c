-- ===== src/Decoder/Annotations.antt =====
-- The reading of annotations in ddjvuapi.cpp: `anno_compat`, `anno_fgetc`, `anno_ungetc` and `anno_sub`,
-- over the bytes of a chunk, none of which is NUL. A `char` has no sign, as on the ARM targets of
-- Android; where it has one, a byte of 0xff that is put back is read as EOF.
pub mod Stream
pub mod Modern
pub mod Rounds
use readflex.Ctype.{is_ascii, is_print}
use readflex.Exp.Lists.{miniexp_reverse}
use readflex.Exp.Number.{Double}
use readflex.Exp.Reader.{miniexp_read_r, is_dummy}
use readflex.Exp.Text.{octal_3}
use readflex.Exp.{Exp, nil, cons}
use readflex.Prelude.{
  ℕ, zero, suc, ◌-◌, Bool, true, false, not, ◌&&◌, ◌||◌, Option, none, some, List, [], ◌∷◌, ◌++◌,
  Bytes, codes, length, ltb, leb, ◌==◌, if◌then◌else◌,
}

-- `state`: 0, a quotation mark, or a backslash.
pub data Mode : Type 0 where
  outside quoted escaped : Mode

abbrev is_control : ℕ → Bool
is_control c = is_ascii c && not (is_print c)

abbrev contains : Bytes → ℕ → Bool
contains [] c = false
contains (d ∷ s) c = d == c || contains s c

-- `strchr("01234567abtnvfr\"\\", c)`.
abbrev is_escape : ℕ → Bool
is_escape c = contains (codes "01234567abtnvfr\"\\") c

-- The loop of `anno_compat`: whether a string is in the older syntax.
unfoldable pub is_old : Mode → Bytes → Bool
is_old mode [] = false
is_old outside (c ∷ s) =
    let within = is_old quoted s in
    let after = is_old outside s in if c == b'"' then within else after
is_old quoted (c ∷ s) =
    let end = is_old outside s in
    let escape = is_old escaped s in
    let more = is_old quoted s in
    if c == b'"' then end else if c == b'\\' then escape else if is_control c then true else more
is_old escaped (c ∷ s) = let more = is_old quoted s in if is_escape c then more else true

unfoldable pub anno_compat : Bytes → Bool
unfolding is_old
anno_compat s = is_old outside s

-- What `anno_fgetc` gives for a character of the chunk, the first one at once and the others out of its
-- buffer, and the next state.
unfoldable pub anno_char : Bool → Mode → ℕ → ℕ × Bytes × Mode
unfolding octal_3
anno_char false mode c = (c, [], mode)
anno_char true outside c = (c, [], if c == b'"' then quoted else outside)
anno_char true quoted c =
    if c == b'"'
    then (c, [], outside)
    else if c == b'\\'
    then (c, [], escaped)
    else if is_control c
    then (b'\\', octal_3 c, quoted)
    else (c, [], quoted)
anno_char true escaped c = if c == b'"' then (c, [], quoted) else (b'\\', b'\\' ∷ octal_3 c, quoted)

pub record AnnoDat : Type 0 where
  pub s : Bytes
  pub buf : Bytes
  pub state : Mode
  pub compat : Bool

abbrev refill : AnnoDat → Bytes → ℕ × Bytes × Mode → Option ℕ × AnnoDat
refill dat s (c, out, mode) = (some c, record dat { s = s; buf = out; state = mode })

unfoldable pub anno_fgetc : AnnoDat → Option ℕ × AnnoDat
unfolding anno_char
anno_fgetc dat = elim dat.buf [
  | c ∷ buf ↦ (some c, record dat { buf = buf })
  | [] ↦ elim dat.s [ [] ↦ (none, dat) | c ∷ s ↦ refill dat s (anno_char dat.compat dat.state c) ]
]

-- There is room for eight characters: one that finds none is lost.
unfoldable pub anno_ungetc : ℕ → AnnoDat → AnnoDat
anno_ungetc c dat = if leb 8 (length dat.buf) then dat else record dat { buf = c ∷ dat.buf }

-- All that `anno_fgetc` gives for the characters of the chunk.
unfoldable pub anno_stream : Bool → Mode → Bytes → Bytes
unfolding anno_char
anno_stream compat mode [] = []
anno_stream compat mode (c ∷ s) =
    (anno_char compat mode c).0
    ∷ ((anno_char compat mode c).1 ++ anno_stream compat (anno_char compat mode c).2 s)

-- `anno_dat.s` once `n` characters have been taken out of the stream.
unfoldable pub raw_left : Bool → Mode → ℕ → Bytes → Bytes
unfolding anno_char
raw_left compat mode n [] = []
raw_left compat mode zero (c ∷ s) = c ∷ s
raw_left compat mode (suc n) (c ∷ s) =
    raw_left compat (anno_char compat mode c).2 (n - length (anno_char compat mode c).1) s

abbrev pub is_end : Bytes → Bool
is_end [] = true
is_end (_ ∷ _) = false

-- The loop of `anno_sub` over the stream `left`, of which `n` characters are taken: all but what is
-- left, and the one that is put back. `anno_sub` has a round for each character of the
-- stream.
unfoldable pub anno_rounds : ℕ → (Bytes → Option Double) → Bool → Bytes → ℕ → Bytes → Exp → Exp
unfolding raw_left anno_stream miniexp_read_r
anno_rounds zero strtod compat s n left result = result
anno_rounds (suc fuel) strtod compat s n left result =
    let (a, left') = miniexp_read_r strtod left in
    let n' = length (anno_stream compat outside s) - (length left' - 1) in
    let more =
      anno_rounds fuel strtod compat s n' left' (if is_dummy a then result else cons a result) in
    if is_end (raw_left compat outside n s) then result else more

-- `anno_sub` on the bytes of a chunk, behind the result of the chunks before it.
unfoldable pub anno_sub : (Bytes → Option Double) → Bytes → Exp → Exp
unfolding anno_compat anno_stream anno_rounds
anno_sub strtod s result =
    let compat = anno_compat s in
    let stream = anno_stream compat outside s in
    anno_rounds (length stream) strtod compat s 0 stream result

-- The loop of `get_bytestream_anno` over the chunks with annotations, of which those that are packed
-- have been unpacked.
unfoldable anno_chunks : (Bytes → Option Double) → List Bytes → Exp → Exp
unfolding anno_sub
anno_chunks strtod [] result = result
anno_chunks strtod (raw ∷ chunks) result = anno_chunks strtod chunks (anno_sub strtod raw result)

unfoldable pub get_annotations : (Bytes → Option Double) → List Bytes → Exp
unfolding anno_chunks miniexp_reverse
get_annotations strtod chunks = miniexp_reverse (anno_chunks strtod chunks nil)
