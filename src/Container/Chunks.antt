-- ===== src/Container/Chunks.antt =====
-- The chunks of a standalone document, as a relation, against the loop of `validate_container`.
use readflex.Prelude.{
  ℕ, zero, suc, ◌+◌, ◌≤◌, ◌<◌, ◌≡◌, ◌≢◌, ◌↔◌, inl, inr, false, Bytes, length, take, drop, same_iff,
  leb, arith, Bool-cases, leb→le, le→leb,
}
use readflex.Failure.{ok, >>=-eq-ok}
use readflex.Container.{big_endian, next_chunk, is_external, incl, ndir, chunk_step, scan_chunks}

-- The header of the chunk at an offset: four bytes of name, four of size.
abbrev pub header_at : Bytes → ℕ → Bytes
header_at file offset = take 8 (drop offset file)

abbrev pub size_at : Bytes → ℕ → ℕ
size_at file offset = big_endian (drop 4 (header_at file offset))

-- A chunk that lies within the form and refers to no other file.
pub record IsInternal (file : Bytes) (end offset : ℕ) : Type 0 where
  pub header_fits : offset + 8 ≤ length file
  pub fits : offset + 8 + size_at file offset ≤ end
  pub ne_incl : take 4 (header_at file offset) ≢ incl
  pub ne_ndir : take 4 (header_at file offset) ≢ ndir

-- `n` such chunks stand one behind the other from an offset on, and then no room for a header.
pub data Chunks (file : Bytes) (end : ℕ) : ℕ → ℕ → Type 0 where
  stop : {offset : ℕ} → end < offset + 8 → Chunks file end offset 0
  next :
      {offset n : ℕ}
      → offset + 8 ≤ end
      → IsInternal file end offset
      → Chunks file end (next_chunk offset (size_at file offset)) n
      → Chunks file end offset (suc n)

is_external-false :
    (header : Bytes)
    → (is_external header ≡ false) ↔ ((take 4 header ≢ incl) × (take 4 header ≢ ndir))
is_external-false header =
    ground (arith, same_iff (take 4 header) incl, same_iff (take 4 header) ndir)

-- One round goes on exactly at a chunk that is internal, and then to the chunk behind it.
pub chunk_step-IsInternal :
    (file : Bytes) (end offset : ℕ)
    → offset + 8 ≤ end
    → IsInternal file end offset
    → chunk_step file end offset ≡ ok (next_chunk offset (size_at file offset))
unfolding chunk_step
chunk_step-IsInternal file end offset room i =
    ground (arith, (is_external-false (header_at file offset)).1 (i.ne_incl, i.ne_ndir))

pub IsInternal-chunk_step :
    (file : Bytes) (end offset after : ℕ)
    → offset + 8 ≤ end
    → chunk_step file end offset ≡ ok after
    → IsInternal file end offset × (after ≡ next_chunk offset (size_at file offset))
unfolding chunk_step
IsInternal-chunk_step file end offset after room h =
    ground (arith, is_external-false (header_at file offset))

pub Chunks-scan_chunks :
    (rounds : ℕ) (file : Bytes) (end offset : ℕ)
    → scan_chunks rounds file end offset ≡ ok tt
    → (n : ℕ) × (n ≤ rounds) × Chunks file end offset n
unfolding scan_chunks
Chunks-scan_chunks zero file end offset h = (0, omega arith, stop (ground arith))
Chunks-scan_chunks (suc rounds) file end offset h = elim (Bool-cases (leb (offset + 8) end)) [
  | inl room ↦
      let (after, stepped, rest) =
        >>=-eq-ok (chunk_step file end offset) _ (rw (room, scan_chunks) at h) in
      let (inside, moved) = IsInternal-chunk_step file end offset after (leb→le _ _ room) stepped in
      let (n, few, chunks) = Chunks-scan_chunks rounds file end after rest in
      (suc n, omega arith, next (leb→le _ _ room) inside (rw moved at chunks))
  | inr full ↦ (0, omega arith, stop (ground arith))
]

pub scan_chunks-Chunks :
    (rounds : ℕ) {n : ℕ} (file : Bytes) (end : ℕ) {offset : ℕ}
    → n ≤ rounds
    → Chunks file end offset n
    → scan_chunks rounds file end offset ≡ ok tt
unfolding scan_chunks
scan_chunks-Chunks zero file end few (stop full) = ground arith
scan_chunks-Chunks (suc rounds) file end few (stop full) = ground arith
scan_chunks-Chunks zero file end few (next room i rest) = absurd (omega arith)
scan_chunks-Chunks (suc rounds) file end {offset} few (next room i rest) =
    rw (scan_chunks, le→leb _ _ room, chunk_step-IsInternal file end offset room i)
      (scan_chunks-Chunks rounds file end (omega arith) rest)

-- The loop accepts a standalone document exactly if its chunks, at most as many as there are
-- rounds, fill the form up to less than a header, lie within it and are neither INCL nor NDIR.
pub scan_chunks_iff :
    (rounds : ℕ) (file : Bytes) (end offset : ℕ)
    → (scan_chunks rounds file end offset ≡ ok tt)
      ↔ ((n : ℕ) × (n ≤ rounds) × Chunks file end offset n)
scan_chunks_iff rounds file end offset =
    (Chunks-scan_chunks rounds file end offset, λ c. scan_chunks-Chunks rounds file end c.1 c.2)
