-- ===== src/Container/RoundTrip.antt =====
-- Standalone documents written out chunk by chunk, and what `validate_container` says of them.
use Prim.Native.Nat.add
use readflex.Prelude.{
  ℕ, zero, suc, ◌+◌, ◌/◌, ◌%◌, ◌^◌, ◌≤◌, ◌<◌, ◌≡◌, refl, sym, ap, ◌∙◌, ◌≢◌, inr, List, [], ◌∷◌,
  ◌++◌, append_assoc, append-nil, Bytes, length, take, drop, All, arith, length-append, drop-append,
  take-append,
}
use readflex.Container.Accepts.{form_end, check_file_iff}
use readflex.Container.Chunks.{header_at, size_at, IsInternal, Chunks, stop, next}
use readflex.Container.{big_endian, at_t_form, djvu, incl, ndir, max_nodes, next_chunk, check_file}
use readflex.Failure.{ok}

pub record Chunk : Type 0 where
  pub name : Bytes
  pub body : Bytes

unfoldable pub word : ℕ → Bytes
word n = n / 2 ^ 24 % 256 ∷ n / 2 ^ 16 % 256 ∷ n / 2 ^ 8 % 256 ∷ n % 256 ∷ []

-- The pad byte that makes the length even.
unfoldable pub pad : ℕ → Bytes
pad zero = []
pad (suc n) = 0 ∷ []

unfoldable pub encode : Chunk → Bytes
unfolding word pad
encode c = (c.name ++ word (length c.body)) ++ (c.body ++ pad (length c.body % 2))

unfoldable pub encode_all : List Chunk → Bytes
encode_all [] = []
encode_all (c ∷ cs) = encode c ++ encode_all cs

unfoldable pub document : List Chunk → Bytes
unfolding word
document cs = at_t_form ++ (word (4 + length (encode_all cs)) ++ (djvu ++ encode_all cs))

-- A chunk with a name of four bytes that is neither INCL nor NDIR.
pub record IsPlain (c : Chunk) : Type 0 where
  pub name_length : length c.name ≡ 4
  pub ne_incl : c.name ≢ incl
  pub ne_ndir : c.name ≢ ndir

big_endian-word : (n : ℕ) (rest : Bytes) → n < 2 ^ 32 → big_endian (word n ++ rest) ≡ n
unfolding big_endian word
big_endian-word n rest h = omega arith

length-word : (n : ℕ) → length (word n) ≡ 4
unfolding word
length-word n = refl

length-pad : (n : ℕ) → length (pad (n % 2)) ≡ n % 2
unfolding pad
length-pad n = ground arith

length-encode :
    (c : Chunk) → length c.name ≡ 4 → length (encode c) ≡ 8 + length c.body + length c.body % 2
unfolding encode
length-encode c h = omega (
  arith,
  length-append (c.name ++ word (length c.body)) (c.body ++ pad (length c.body % 2)),
  length-append c.name (word (length c.body)),
  length-append c.body (pad (length c.body % 2)),
  length-word (length c.body),
  length-pad (length c.body),
)

drop-nil {ℓ} : {A : Type ℓ} (n : ℕ) → drop {A = A} n [] ≡ []
drop-nil zero = refl
drop-nil (suc n) = refl

drop-drop {ℓ} : {A : Type ℓ} (m n : ℕ) (xs : List A) → drop (m + n) xs ≡ drop n (drop m xs)
drop-drop zero n xs = rw add.zero
drop-drop (suc m) n [] = rw drop-nil (rw drop-nil)
drop-drop (suc m) n (x ∷ xs) = rw add.suc (drop-drop m n xs)

module _ (file : Bytes) (offset : ℕ) (c : Chunk) (tail : Bytes)
    (here : drop offset file ≡ encode c ++ tail) (four : length c.name ≡ 4) where
  header_at-encode : header_at file offset ≡ c.name ++ word (length c.body)
  unfolding encode
  header_at-encode =
      ap (take 8) (
        here
        ∙ append_assoc (c.name ++ word (length c.body)) (c.body ++ pad (length c.body % 2)) tail)
      ∙ take-append (c.name ++ word (length c.body)) _ 8
          (omega (arith, length-append c.name (word (length c.body)), length-word (length c.body)))

  name_at-encode : take 4 (header_at file offset) ≡ c.name
  name_at-encode = ap (take 4) header_at-encode ∙ take-append c.name _ 4 (omega arith)

  size_at-encode : length c.body < 2 ^ 32 → size_at file offset ≡ length c.body
  size_at-encode h =
      ap (λ header. big_endian (drop 4 header)) header_at-encode
      ∙ ap big_endian
          (drop-append c.name _ 4 (omega arith) ∙ sym (append-nil (word (length c.body))))
      ∙ big_endian-word (length c.body) [] h

  drop-next_chunk :
      length c.body < 2 ^ 32 → drop (next_chunk offset (size_at file offset)) file ≡ tail
  drop-next_chunk h = rw (size_at-encode h) (
      drop-drop offset (8 + length c.body + length c.body % 2) file
      ∙ ap (drop (8 + length c.body + length c.body % 2)) here
      ∙ drop-append (encode c) tail _ (sym (length-encode c four)))

-- Plain chunks written out from an offset up to `end` form a sequence that the loop takes.
Chunks-encode_all :
    (file : Bytes) (end : ℕ) (cs : List Chunk) (offset : ℕ)
    → end ≤ length file
    → end < 2 ^ 32
    → drop offset file ≡ encode_all cs
    → offset + length (encode_all cs) ≡ end
    → All IsPlain cs
    → Chunks file end offset (length cs)
unfolding encode_all
Chunks-encode_all file end [] offset inside small here ends plain = stop (omega arith)
Chunks-encode_all file end (c ∷ cs) offset inside small here ends plain =
    next (omega (arith, cut)) internal (
      Chunks-encode_all file end cs _ inside small
        (drop-next_chunk file offset c (encode_all cs) here plain.0.name_length short)
        (omega (arith, cut, size)) plain.1)
  where
    cut :
        length (encode_all (c ∷ cs))
        ≡ 8 + length c.body + length c.body % 2 + length (encode_all cs)
    cut =
        length-append (encode c) (encode_all cs)
        ∙ ap (λ n. n + length (encode_all cs)) (length-encode c plain.0.name_length)

    short : length c.body < 2 ^ 32
    short = omega (arith, cut)

    size : size_at file offset ≡ length c.body
    size = size_at-encode file offset c (encode_all cs) here plain.0.name_length short

    named : take 4 (header_at file offset) ≡ c.name
    named = name_at-encode file offset c (encode_all cs) here plain.0.name_length

    internal : IsInternal file end offset
    internal = record {
      header_fits = omega (arith, cut);
      fits = omega (arith, cut, size);
      ne_incl = λ e. plain.0.ne_incl (sym named ∙ e);
      ne_ndir = λ e. plain.0.ne_ndir (sym named ∙ e);
    }

-- A standalone document of at most 100000 plain chunks, of a length that its header can state, is
-- accepted, whatever the chunks hold.
pub check_file-document :
    (cs : List Chunk)
    → All IsPlain cs
    → length cs ≤ max_nodes
    → length (encode_all cs) + 16 < 2 ^ 32
    → check_file (document cs) ≡ ok tt
unfolding document word
check_file-document cs plain few small = (check_file_iff (document cs)).1 (
  record {
    has_header = omega arith;
    magic = refl;
    end_ge = omega (arith, form_end-document);
    end_le = omega (arith, form_end-document);
  },
  inr (record {
    kind = refl;
    chunks = length cs;
    few = few;
    internal =
        Chunks-encode_all (document cs) (form_end (document cs)) cs 16
          (omega (arith, form_end-document)) (omega (arith, form_end-document)) refl
          (omega (arith, form_end-document)) plain;
  }),
)
  where
    form_end-document : form_end (document cs) ≡ 16 + length (encode_all cs)
    form_end-document =
        omega (arith, big_endian-word (4 + length (encode_all cs)) djvu (omega arith))
