-- ===== src/Container.antt =====
-- `big_endian`, `read_at` and `validate_container` of pagecraft_djvu.cpp: the check of a file
-- before the decoder sees it. A file is the list of its bytes; `file_at` stands for the file
-- system. A read past the end fails, as `ifstream::read` does. Offsets are `uint64_t`: they stay
-- below 2 ^ 34, so no sum wraps.
pub mod Chunks
pub mod Accepts
pub mod RoundTrip
pub mod Named
mod Tests
use readflex.Prelude.{
  ℕ, zero, suc, ◌+◌, ◌-◌, ◌*◌, ◌/◌, ◌%◌, ◌^◌, ◌≡◌, Bool, true, false, not, ◌&&◌, ◌||◌, Option, none,
  some, List, [], ◌∷◌, Bytes, length, take, drop, same, get_or, ◌==◌, ltb, leb, if◌then◌else◌,
}
use readflex.Failure.{
  Result, ok, err, ◌>>=◌, ◌>>◌, reject, no_path, cannot_open_file, not_djvu, truncated, indirect,
  too_many_chunks, bad_chunk_size, external_component, unsupported_container,
}

abbrev pub max_nodes : ℕ
max_nodes = 100000

abbrev pub at_t_form : Bytes
at_t_form = b'A' ∷ b'T' ∷ b'&' ∷ b'T' ∷ b'F' ∷ b'O' ∷ b'R' ∷ b'M' ∷ []

abbrev pub djvm : Bytes
djvm = b'D' ∷ b'J' ∷ b'V' ∷ b'M' ∷ []

abbrev pub djvu : Bytes
djvu = b'D' ∷ b'J' ∷ b'V' ∷ b'U' ∷ []

abbrev pub dirm : Bytes
dirm = b'D' ∷ b'I' ∷ b'R' ∷ b'M' ∷ []

abbrev pub incl : Bytes
incl = b'I' ∷ b'N' ∷ b'C' ∷ b'L' ∷ []

abbrev pub ndir : Bytes
ndir = b'N' ∷ b'D' ∷ b'I' ∷ b'R' ∷ []

-- The bytes fill disjoint parts of the word, so that `|` of the shifts is their sum.
unfoldable pub big_endian : Bytes → ℕ
big_endian (a ∷ b ∷ c ∷ d ∷ _) = a * 2 ^ 24 + b * 2 ^ 16 + c * 2 ^ 8 + d
big_endian _ = 0

-- `file.seekg(offset); file.read(out, n)`, or the exception if fewer than n bytes are left.
unfoldable pub read_at : Bytes → ℕ → ℕ → Result Bytes
read_at file offset n =
    if leb (offset + n) (length file) then ok (take n (drop offset file)) else err truncated

-- `size` bytes of data follow the header, and a pad byte if `size` is odd.
abbrev pub next_chunk : ℕ → ℕ → ℕ
next_chunk offset size = offset + (8 + size + size % 2)

-- `byte & (1 << k)` as a test.
abbrev pub has_bit : ℕ → ℕ → Bool
has_bit k byte = byte / 2 ^ k % 2 == 1

abbrev pub is_external : Bytes → Bool
is_external chunk = same (take 4 chunk) incl || same (take 4 chunk) ndir

-- The body of the loop, up to the new offset.
pub chunk_step : Bytes → ℕ → ℕ → Result ℕ
unfolding read_at
chunk_step file end offset = do
  chunk ← read_at file offset 8
  let size = big_endian (drop 4 chunk)
  reject (ltb (end - offset - 8) size) bad_chunk_size
  reject (is_external chunk) external_component
  ok (next_chunk offset size)

-- `while (offset + 8 <= end)`. The rounds are counted down from `max_nodes`: at zero, one more
-- chunk is the exception that `++chunks > max_nodes` throws.
unfoldable pub scan_chunks : ℕ → Bytes → ℕ → ℕ → Result (Unit {0})
scan_chunks zero file end offset = reject (leb (offset + 8) end) too_many_chunks
scan_chunks (suc rounds) file end offset = elim (leb (offset + 8) end) [
  | true ↦ chunk_step file end offset >>= λ offset'. scan_chunks rounds file end offset'
  | false ↦ ok tt
]

-- The DJVM branch: a bundled document, which has its directory as the first chunk.
pub check_bundled : Bytes → ℕ → Result (Unit {0})
unfolding read_at
check_bundled file end = do
  directory ← read_at file 16 9
  reject
      (ltb end 25
        || not (same (take 4 directory) dirm)
        || ltb (big_endian (drop 4 directory)) 1
        || not (has_bit 7 (get_or directory 8 0)))
      indirect

-- The three-way test of the type in the header.
unfoldable pub check_kind : Bytes → ℕ → Bytes → Result (Unit {0})
check_kind file end kind =
    if same kind djvm
    then check_bundled file end
    else if same kind djvu
    then scan_chunks max_nodes file end 16
    else err unsupported_container

-- The body of `validate_container`, once the file is open.
unfoldable pub check_file : Bytes → Result (Unit {0})
unfolding read_at
check_file file = do
  reject (ltb (length file) 16) not_djvu
  header ← read_at file 0 16
  reject (not (same (take 8 header) at_t_form)) not_djvu
  let end = 12 + big_endian (drop 8 header)
  reject (ltb end 16 || ltb (length file) end) truncated
  check_kind file end (drop 12 header)

-- `path` is `none` for a null pointer.
unfoldable pub validate_container : (Bytes → Option Bytes) → Option Bytes → Result (Unit {0})
validate_container file_at none = err no_path
validate_container file_at (some []) = err no_path
validate_container file_at (some (c ∷ cs)) = elim (file_at (c ∷ cs)) [
  | none ↦ err cannot_open_file
  | some file ↦ check_file file
]
