-- ===== src/Container/Tests.antt =====
-- The check of a container on concrete files.
use readflex.Prelude.{ℕ, ◌≡◌, refl, List, [], ◌∷◌, Bytes, arith, take, ap, get_or, same}
use readflex.Container.RoundTrip.{Chunk, IsPlain, word, pad, encode, encode_all, document}
use readflex.Container.{
  read_at, big_endian, chunk_step, scan_chunks, check_bundled, check_kind, check_file,
}
use readflex.Failure.{ok, err, truncated, external_component, indirect}

abbrev info_chunk : Chunk
info_chunk = record { name = b'I' ∷ b'N' ∷ b'F' ∷ b'O' ∷ []; body = 1 ∷ 2 ∷ 3 ∷ [] }

abbrev text_chunk : Chunk
text_chunk = record { name = b'T' ∷ b'X' ∷ b'T' ∷ b'a' ∷ []; body = 7 ∷ 8 ∷ [] }

abbrev include_chunk : Chunk
include_chunk = record { name = b'I' ∷ b'N' ∷ b'C' ∷ b'L' ∷ []; body = [] }

abbrev two_chunks : List Chunk
two_chunks = info_chunk ∷ text_chunk ∷ []

info_chunk-IsPlain : IsPlain info_chunk
info_chunk-IsPlain = record {
  name_length = refl;
  ne_incl = λ e. omega (arith, ap (λ xs. get_or xs 2 0) e);
  ne_ndir = λ e. omega (arith, ap (λ xs. get_or xs 0 0) e);
}

text_chunk-IsPlain : IsPlain text_chunk
text_chunk-IsPlain = record {
  name_length = refl;
  ne_incl = λ e. omega (arith, ap (λ xs. get_or xs 2 0) e);
  ne_ndir = λ e. omega (arith, ap (λ xs. get_or xs 0 0) e);
}

-- A document cut short is refused, and so is one that includes another file.
test_truncated : check_file (take 30 (document two_chunks)) ≡ err truncated
unfolding check_file document encode_all read_at big_endian same encode word pad
test_truncated = refl

test_included : check_file (document (include_chunk ∷ [])) ≡ err external_component
unfolding check_file check_kind scan_chunks chunk_step document encode_all read_at big_endian same
    encode word pad
test_included = refl

-- The flag of the directory says whether the document is bundled.
abbrev directory_file : ℕ → Bytes
directory_file flags =
    b'A' ∷ b'T' ∷ b'&' ∷ b'T' ∷ b'F' ∷ b'O' ∷ b'R' ∷ b'M' ∷ 0 ∷ 0 ∷ 0 ∷ 13 ∷ b'D' ∷ b'J' ∷ b'V'
    ∷ b'M' ∷ b'D' ∷ b'I' ∷ b'R' ∷ b'M' ∷ 0 ∷ 0 ∷ 0 ∷ 1 ∷ flags ∷ []

test_bundled : check_file (directory_file 0x81) ≡ ok tt
unfolding check_file check_kind check_bundled read_at big_endian same
test_bundled = refl

test_indirect : check_file (directory_file 0x01) ≡ err indirect
unfolding check_file check_kind check_bundled read_at big_endian same
test_indirect = refl
