-- ===== src/Api/Errors.antt =====
-- The contract of the C functions: a failed call says why, and one that succeeds leaves no text.
use readflex.Prelude.{
  ◌≡◌, ◌≢◌, refl, ◌⊎◌, inl, inr, Bool, true, false, Option, none, some, List, [], Bytes, ℤ, pos,
}
use readflex.Exp.{Exp}
use readflex.Failure.{
  Error, Result, Result-cases, ok, err, ◌>>=◌, what-ne-nil, Named, IsNamed, no_page_output,
  document_closed,
}
use readflex.Api.{
  Reply, guarded, guarded_pointer, api_open, api_page_info, api_render, api_text, api_outline,
  api_metadata,
}
use readflex.Api.Output.{PageOutput, document_of, page_output}
use readflex.Metadata.Named.{metadata-Named}
use readflex.Metadata.{Key}
use readflex.Open.Named.{open_file-Named}
use readflex.Open.{Opener, open_file}
use readflex.Outline.Named.{outline-Named}
use readflex.Outline.{Directory}
use readflex.Page.Named.{page_info-Named}
use readflex.Page.{PageInfo, Pages, page_info, oriented_size}
use readflex.Render.Named.{render-Named}
use readflex.Render.{Renderer, Request}
use readflex.TextLayer.Named.{text-Named}
use readflex.Wait.{Wait}

-- Either the pointer is null and the error has a text, or neither.
abbrev pub Reports {ℓ} : {A : Type ℓ} → Reply (Option A) → Type 0
Reports r = elim r.value [ none ↦ r.last_error ≢ [] | some _ ↦ r.last_error ≡ [] ]

guarded_pointer-Reports {ℓ} : {A : Type ℓ} (m : Result A) → Named m → Reports (guarded_pointer m)
unfolding guarded_pointer guarded
guarded_pointer-Reports (ok a) h = refl
guarded_pointer-Reports (err e) h = what-ne-nil e h

document_of-Named {ℓ κ} :
    {A : Type ℓ} {B : Type κ} (document : Option A) (f : A → Result B)
    → ((a : A) → Named (f a))
    → Named (document_of document >>= f)
unfolding document_of
document_of-Named none f h = tt
document_of-Named (some a) f h = h a

-- Each of the functions that return a pointer returns null exactly if it leaves a text in `last_error`:
-- open, render, text, outline and metadata, whatever the file, the decoder and the allocator do.
pub pointers-Reports :
    (file_at : Bytes → Option Bytes) (o : Opener) (path : Option Bytes) (timeout_ms : ℤ)
    (document : Option Pages) (d : Renderer) (page : ℤ) (r : Request) (text_polls : ℤ → Wait Exp)
    (directory : Directory) (global first : Wait Exp) (keys_of : Exp → Option (List Key))
    (has_memory : Bool)
    → Reports (api_open file_at o path timeout_ms)
      × Reports (api_render document d page r)
      × Reports (api_text document text_polls has_memory page)
      × Reports (api_outline document directory global has_memory)
      × Reports (api_metadata document global first keys_of has_memory)
unfolding api_open api_render api_text api_outline api_metadata
pointers-Reports file_at o path timeout_ms document d page r text_polls directory global first
      keys_of has_memory =
    (
      guarded_pointer-Reports (open_file file_at o path timeout_ms).result
          (open_file-Named file_at o path timeout_ms),
      guarded_pointer-Reports _ (document_of-Named document _ (λ doc. render-Named doc d page r)),
      guarded_pointer-Reports _
          (document_of-Named document _ (λ doc. text-Named doc text_polls has_memory page)),
      guarded_pointer-Reports _ (
          document_of-Named document _
            (λ doc. outline-Named directory doc.timeout_ms global has_memory)),
      guarded_pointer-Reports _ (
          document_of-Named document _
            (λ doc. metadata-Named doc.timeout_ms global first keys_of has_memory)),
    )

-- The page's size can be read and is put out, with no text of an error.
pub record Written (document : Option Pages) (page : ℤ) (r : Reply ℤ × PageOutput) : Type 0 where
  pub doc : Pages
  pub info : PageInfo
  pub is_open : document ≡ some doc
  pub is_page : page_info doc page ≡ ok info
  pub is_done : r.0.value ≡ pos 1
  pub no_text : r.0.last_error ≡ []
  pub width : r.1.width ≡ info.width
  pub height : r.1.height ≡ info.height
  pub dpi : r.1.dpi ≡ info.dpi

-- Why `page_info` puts nothing out: a null pointer, a closed document, or a page that fails.
pub data Unreadable (page : ℤ) : Option Pages → Bool → Type 0 where
  null_output : {document : Option Pages} → Unreadable page document false
  closed : {has_outputs : Bool} → Unreadable page none has_outputs
  bad_page :
      {has_outputs : Bool} (doc : Pages) (e : Error)
      → page_info doc page ≡ err e
      → Unreadable page (some doc) has_outputs

-- The value is 0, with a text, and the outputs are those before the call.
pub record Untouched (before : PageOutput) (r : Reply ℤ × PageOutput) : Type 0 where
  pub is_failed : r.0.value ≡ pos 0
  pub has_text : r.0.last_error ≢ []
  pub kept : r.1 ≡ before

-- `pagecraft_djvu_page_info` returns 1, with no text and the page's width, height and dpi in the
-- outputs, if no pointer is null, the document is open, and `page_info` gives the page's size;
-- otherwise it returns 0, with a text, and the outputs are as they were.
pub api_page_info-Written :
    (document : Option Pages) (page : ℤ) (has_outputs : Bool) (before : PageOutput)
    → ((has_outputs ≡ true)
        × Written document page (api_page_info document page has_outputs before))
      ⊎ (Unreadable page document has_outputs
          × Untouched before (api_page_info document page has_outputs before))
unfolding api_page_info page_output guarded oriented_size
api_page_info-Written document page false before = inr (
  null_output,
  record { is_failed = refl; has_text = what-ne-nil no_page_output tt; kept = refl },
)
api_page_info-Written none page true before =
    inr
      (closed, record { is_failed = refl; has_text = what-ne-nil document_closed tt; kept = refl })
api_page_info-Written (some doc) page true before = elim (Result-cases (page_info doc page)) [
  | inl (info, paged) ↦ inl (
    refl,
    record {
      doc = doc;
      info = info;
      is_open = refl;
      is_page = paged;
      is_done = rw paged refl;
      no_text = rw paged refl;
      width = rw paged refl;
      height = rw paged refl;
      dpi = rw paged refl;
    },
  )
  | inr (e, failed) ↦
      let named : IsNamed e = rw failed at (page_info-Named doc page) in
      inr (
        bad_page doc e failed,
        record {
          is_failed = rw failed refl;
          has_text = rw failed (what-ne-nil e named);
          kept = rw failed refl;
        },
      )
]
