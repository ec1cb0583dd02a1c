-- ===== src/Open/Returns.antt =====
-- Every way through `pagecraft_djvu_open`, and through the `pagecraft_djvu_close` after it.
use readflex.Prelude.{
  ◌≡◌, ◌↔◌, true, false, ◌⊎◌, inl, inr, arith, Option, none, some, List, [], ◌∷◌, ◌++◌, Bytes, ℤ,
  pos, ◌≤ℤ◌,
}
use readflex.Container.{validate_container}
use readflex.Failure.{Result, ok, err, Result-cases}
use readflex.Open.{
  bundled, singlepage, Opener, Opened, max_pages, timeout_of, check_document, open_document,
  open_file, close,
}
use readflex.Wait.{wait_for}
use readflex.Resource.{Resource, context, document, after, owned, give_back, replay}

abbrev pub handle : Result Opened → Option Opened
handle (ok doc) = some doc
handle (err e) = none

-- What the caller holds after an open.
abbrev pub held : Result Opened → List Resource
held (ok doc) = document ∷ context ∷ []
held (err e) = []

-- An open that fails gives back all that it took. One that succeeds leaves the decoder's context and
-- document with the caller, and closing that document gives back both.
pub open-close-balanced :
    (file_at : Bytes → Option Bytes) (d : Opener) (path : Option Bytes) (timeout_ms : ℤ)
    → let run = open_file file_at d path timeout_ms in
      (replay run.events [] ≡ some (held run.result))
      × (replay (run.events ++ close (handle run.result)) [] ≡ some [])
unfolding open_file open_document close after owned replay give_back
open-close-balanced file_at d path timeout_ms =
    elim (Result-cases (validate_container file_at path)) [
      | inl (_, valid) ↦ elim (Result-cases (check_document d (timeout_of timeout_ms))) [
        | inl (doc, good) ↦ ground arith
        | inr (e, bad) ↦ ground arith
      ]
      | inr (e, bad) ↦ ground arith
    ]

-- What an open that succeeds has gone through.
pub record Opens (file_at : Bytes → Option Bytes) (d : Opener) (path : Option Bytes)
    (timeout_ms : ℤ) (doc : Opened) : Type 0 where
  pub valid : validate_container file_at path ≡ ok tt
  pub context_made : d.creates_context ≡ true
  pub document_made : d.creates_document ≡ true
  pub decoded : wait_for (timeout_of timeout_ms) d.decoding_done ≡ ok tt
  pub no_error : d.decoding_error ≡ false
  pub kind : (d.doc_type ≡ bundled) ⊎ (d.doc_type ≡ singlepage)
  pub some_pages : pos 1 ≤ℤ d.page_count
  pub few_pages : d.page_count ≤ℤ pos max_pages
  pub is_doc : doc ≡ record { timeout_ms = timeout_of timeout_ms; page_count = d.page_count }

module _ (file_at : Bytes → Option Bytes) (d : Opener) (path : Option Bytes) (timeout_ms : ℤ)
    (doc : Opened) where
  open_file-Opens :
      (open_file file_at d path timeout_ms).result ≡ ok doc → Opens file_at d path timeout_ms doc
  unfolding open_file open_document check_document after owned
  open_file-Opens e = record {
    valid = ground arith;
    context_made = ground arith;
    document_made = ground arith;
    decoded = ground arith;
    no_error = ground arith;
    kind = ground arith;
    some_pages = ground arith;
    few_pages = ground arith;
    is_doc = ground arith;
  }

  Opens-open_file :
      Opens file_at d path timeout_ms doc → (open_file file_at d path timeout_ms).result ≡ ok doc
  unfolding open_file open_document check_document after owned
  Opens-open_file p = ground (arith, p.valid, p.decoded, p.is_doc)

-- An open succeeds exactly if the file has passed its check, the decoder's context and document are
-- made, the decoding ends with no error within the timeout, and the document is bundled or a single
-- page with 1 to 100000 pages; what is opened then has that many pages and that timeout.
pub open_file_iff :
    (file_at : Bytes → Option Bytes) (d : Opener) (path : Option Bytes) (timeout_ms : ℤ)
    (doc : Opened)
    → ((open_file file_at d path timeout_ms).result ≡ ok doc) ↔ Opens file_at d path timeout_ms doc
open_file_iff file_at d path timeout_ms doc =
    (open_file-Opens file_at d path timeout_ms doc, Opens-open_file file_at d path timeout_ms doc)
