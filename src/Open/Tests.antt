-- ===== src/Open/Tests.antt =====
-- A concrete document, opened and closed.
use readflex.Prelude.{
  ◌≡◌, ◌↔◌, refl, true, false, Option, some, [], ◌∷◌, ◌++◌, Bytes, codes, pos, same,
}
use readflex.Container.{
  validate_container, check_file, check_kind, scan_chunks, read_at, big_endian,
}
use readflex.Failure.{ok, err, unsupported_structure}
use readflex.Open.Returns.{handle, held, open-close-balanced, open_file_iff, Opens}
use readflex.Open.{
  DocType, singlepage, indirect, Opener, timeout_of, check_document, open_document, open_file,
  close,
}
use readflex.Resource.{after, owned, replay}
use readflex.Wait.Tests.{at_once}
use readflex.Wait.{messages, drain, pass, wait_loop, wait_for}
use readflex.Words.{clamp}

abbrev empty_file : Bytes → Option Bytes
empty_file path = some (
    b'A' ∷ b'T' ∷ b'&' ∷ b'T' ∷ b'F' ∷ b'O' ∷ b'R' ∷ b'M' ∷ 0 ∷ 0 ∷ 0 ∷ 4 ∷ b'D' ∷ b'J' ∷ b'V'
    ∷ b'U' ∷ [])

abbrev opener : DocType → Opener
opener doc_type = record {
  creates_context = true;
  creates_document = true;
  decoding_done = at_once tt;
  decoding_error = false;
  doc_type = doc_type;
  page_count = pos 1;
}

test_opened :
    (open_file empty_file (opener singlepage) (some (codes "a.djvu")) (pos 5)).result
    ≡ ok (record { timeout_ms = 5; page_count = pos 1 })
unfolding open_file open_document check_document timeout_of clamp after owned validate_container
    check_file check_kind scan_chunks read_at big_endian same wait_for wait_loop pass messages drain
test_opened = refl

test_indirect :
    (open_file empty_file (opener indirect) (some (codes "a.djvu")) (pos 5)).result
    ≡ err unsupported_structure
unfolding open_file open_document check_document timeout_of clamp after owned validate_container
    check_file check_kind scan_chunks read_at big_endian same wait_for wait_loop pass messages drain
test_indirect = refl

open-close-balanced_example :
    let run = open_file empty_file (opener indirect) (some (codes "a.djvu")) (pos 5) in
    (replay run.events [] ≡ some (held run.result))
    × (replay (run.events ++ close (handle run.result)) [] ≡ some [])
open-close-balanced_example =
    open-close-balanced empty_file (opener indirect) (some (codes "a.djvu")) (pos 5)

open_file_iff_example :
    ((open_file empty_file (opener singlepage) (some (codes "a.djvu")) (pos 5)).result
      ≡ ok (record { timeout_ms = 5; page_count = pos 1 }))
    ↔ Opens empty_file
        (opener singlepage)
        (some (codes "a.djvu"))
        (pos 5)
        (record { timeout_ms = 5; page_count = pos 1 })
open_file_iff_example =
    open_file_iff empty_file (opener singlepage) (some (codes "a.djvu")) (pos 5)
      (record { timeout_ms = 5; page_count = pos 1 })
