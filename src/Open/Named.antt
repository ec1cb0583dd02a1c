-- ===== src/Open/Named.antt =====
-- The errors of `pagecraft_djvu_open` have a text.
use readflex.Prelude.{ℕ, ℤ, Option, Bytes, arith}
use readflex.Container.Named.{validate_container-Named}
use readflex.Failure.{Named}
use readflex.Open.{Opener, timeout_of, check_document, open_document, open_file}
use readflex.Resource.{after, owned}
use readflex.Wait.Named.{wait_for-Named}

check_document-Named : (d : Opener) (timeout_ms : ℕ) → Named (check_document d timeout_ms)
unfolding check_document
check_document-Named d timeout_ms = ground (arith, wait_for-Named timeout_ms d.decoding_done)

pub open_file-Named :
    (file_at : Bytes → Option Bytes) (d : Opener) (path : Option Bytes) (timeout_ms : ℤ)
    → Named (open_file file_at d path timeout_ms).result
unfolding open_file open_document after owned
open_file-Named file_at d path timeout_ms =
    ground
      (arith, validate_container-Named file_at path, check_document-Named d (timeout_of timeout_ms))
