-- ===== src/Container/Named.antt =====
-- The errors of the check of a file have a text.
use readflex.Prelude.{
  ℕ, zero, suc, ◌+◌, inl, inr, Option, none, some, Option-cases, [], ◌∷◌, Bytes, Bool-cases, leb,
  take, drop, arith,
}
use readflex.Failure.{Named, Named-bind}
use readflex.Container.{
  big_endian, chunk_step, scan_chunks, check_bundled, check_kind, check_file, validate_container,
  max_nodes,
}

chunk_step-Named : (file : Bytes) (end offset : ℕ) → Named (chunk_step file end offset)
unfolding chunk_step
chunk_step-Named file end offset = ground arith

scan_chunks-Named :
    (rounds : ℕ) (file : Bytes) (end offset : ℕ) → Named (scan_chunks rounds file end offset)
unfolding scan_chunks
scan_chunks-Named zero file end offset = ground arith
scan_chunks-Named (suc rounds) file end offset = elim (Bool-cases (leb (offset + 8) end)) [
  | inl room ↦
      rw (scan_chunks, room)
        (Named-bind (chunk_step file end offset) _ (chunk_step-Named file end offset)
          λ o. scan_chunks-Named rounds file end o)
  | inr full ↦ rw (scan_chunks, full) tt
]

check_bundled-Named : (file : Bytes) (end : ℕ) → Named (check_bundled file end)
unfolding check_bundled
check_bundled-Named file end = ground arith

check_kind-Named : (file : Bytes) (end : ℕ) (kind : Bytes) → Named (check_kind file end kind)
unfolding check_kind
check_kind-Named file end kind =
    ground (arith, check_bundled-Named file end, scan_chunks-Named max_nodes file end 16)

check_file-Named : (file : Bytes) → Named (check_file file)
unfolding check_file
check_file-Named file = ground (
  arith,
  check_kind-Named file (12 + big_endian (drop 8 (take 16 file))) (drop 12 (take 16 file)),
)

pub validate_container-Named :
    (file_at : Bytes → Option Bytes) (path : Option Bytes) → Named (validate_container file_at path)
unfolding validate_container
validate_container-Named file_at none = tt
validate_container-Named file_at (some []) = tt
validate_container-Named file_at (some (c ∷ cs)) = elim (Option-cases (file_at (c ∷ cs))) [
  | inl e ↦ rw (validate_container, e) tt
  | inr (file, e) ↦ rw (validate_container, e) (check_file-Named file)
]
