-- ===== src/Open.antt =====
-- `pagecraft_djvu_open` and `pagecraft_djvu_close` of pagecraft_djvu.cpp. What DjVuLibre answers while a
-- document is opened is a parameter.
pub mod Returns
pub mod Named
mod Tests
use readflex.Prelude.{
  ℕ, ◌≤◌, Bool, true, false, not, ◌&&◌, ◌||◌, Option, none, some, List, [], ◌∷◌, Bytes,
  if◌then◌else◌, ℤ, pos, pos_part, leb_ℤ, ltb_ℤ,
}
use readflex.Container.{validate_container}
use readflex.Failure.{
  Result, ok, err, ◌>>=◌, ◌>>◌, reject, no_context, cannot_open_document, cannot_decode_document,
  unsupported_structure,
}
use readflex.Resource.{Event, release, Run, context, document, throws, after, owned}
use readflex.Wait.{Wait, wait_for}
use readflex.Words.{clamp}

-- `ddjvu_document_type_t`.
pub data DocType : Type 0 where
  unknown singlepage bundled indirect old_bundled old_indexed : DocType

abbrev pub is_self_contained : DocType → Bool
is_self_contained bundled = true
is_self_contained singlepage = true
is_self_contained _ = false

pub record Opener : Type 0 where
  pub creates_context : Bool
  pub creates_document : Bool
  pub decoding_done : Wait (Unit {0})
  pub decoding_error : Bool
  pub doc_type : DocType
  pub page_count : ℤ

-- What later calls read of an open document.
pub record Opened : Type 0 where
  pub timeout_ms : ℕ
  pub page_count : ℤ

abbrev pub max_pages : ℕ
max_pages = 100000

-- `std::clamp<int64_t>(timeout_ms, 1, 120000)`.
pub timeout_of : ℤ → ℕ
unfolding clamp
timeout_of timeout_ms = clamp timeout_ms 1 120000

-- Once the document is decoding.
pub check_document : Opener → ℕ → Result Opened
check_document d timeout_ms = do
  _ ← wait_for timeout_ms d.decoding_done
  reject d.decoding_error cannot_decode_document
  reject
      (not (is_self_contained d.doc_type)
        || leb_ℤ d.page_count (pos 0)
        || ltb_ℤ (pos max_pages) d.page_count)
      unsupported_structure
  ok (record { timeout_ms = timeout_ms; page_count = d.page_count })

-- The members of `Document` are released by its destructor, unless it goes to the caller.
pub open_document : Opener → ℕ → Run Opened
open_document d timeout_ms =
    if d.creates_document
    then owned document (record { result = check_document d timeout_ms; events = [] })
    else throws cannot_open_document

pub open_file : (Bytes → Option Bytes) → Opener → Option Bytes → ℤ → Run Opened
unfolding open_document
open_file file_at d path timeout_ms = after (validate_container file_at path) λ _.
    if d.creates_context
    then owned context (open_document d (timeout_of timeout_ms))
    else throws no_context

-- `delete` of the document: nothing for a null pointer.
pub close : Option Opened → List Event
close none = []
close (some doc) = release document ∷ release context ∷ []
