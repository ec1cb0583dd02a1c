-- ===== src/Api.antt =====
-- The C functions of pagecraft_djvu.cpp as the caller sees them: `guarded`, `document_of`,
-- `pagecraft_djvu_last_error` and the functions that report through them. A call gives its value and
-- the text of the thread's `last_error` after it. A null pointer is `none`.
pub mod Output
pub mod Errors
pub mod Released
mod Tests
use readflex.Prelude.{
  ℕ, ◌≤◌, Bool, true, false, not, ◌||◌, Option, none, some, List, [], ◌∷◌, Bytes, ℤ, pos,
}
use readflex.Api.Output.{PageOutput, document_of, page_output}
use readflex.Exp.{Exp}
use readflex.Failure.{
  Error, what, Result, ok, err, ◌>>=◌, ◌>>◌, reject, document_closed, no_page_output,
}
use readflex.Metadata.{Key, metadata}
use readflex.Open.{Opener, Opened, open_file}
use readflex.Outline.{Directory, outline}
use readflex.Page.{Pages, page_info, oriented_size}
use readflex.Render.{Renderer, Request, render}
use readflex.Resource.{Run}
use readflex.TextLayer.{text}
use readflex.Wait.{Wait}

pub record Reply {ℓ} (A : Type ℓ) : Type ℓ where
  pub value : A
  pub last_error : Bytes

-- `last_error` is cleared first, and set by either handler.
pub guarded {ℓ} : {A : Type ℓ} → A → Result A → Reply A
guarded failed (ok a) = record { value = a; last_error = [] }
guarded failed (err e) = record { value = failed; last_error = what e }

-- The functions that return a pointer: null on failure.
pub guarded_pointer {ℓ} : {A : Type ℓ} → Result A → Reply (Option A)
unfolding guarded
guarded_pointer m = guarded none (m >>= λ a. ok (some a))

pub api_open : (Bytes → Option Bytes) → Opener → Option Bytes → ℤ → Reply (Option Opened)
api_open file_at d path timeout_ms = guarded_pointer (open_file file_at d path timeout_ms).result

pub api_page_count : Option Pages → Reply ℤ
api_page_count document = guarded (pos 0) (document_of document >>= λ doc. ok doc.page_count)

-- The reply, and the outputs behind the call.
pub api_page_info : Option Pages → ℤ → Bool → PageOutput → Reply ℤ × PageOutput
api_page_info document page has_outputs before =
    let (result, after) = page_output document page has_outputs before in
    (guarded (pos 0) result, after)

pub api_render : Option Pages → Renderer → ℤ → Request → Reply (Option Bytes)
api_render document d index r =
    guarded_pointer (document_of document >>= λ doc. (render doc d index r).result)

pub api_text : Option Pages → (ℤ → Wait Exp) → Bool → ℤ → Reply (Option Bytes)
api_text document text_polls has_memory page =
    guarded_pointer (document_of document >>= λ doc. (text doc text_polls has_memory page).result)

pub api_outline : Option Pages → Directory → Wait Exp → Bool → Reply (Option Bytes)
api_outline document directory outline_polls has_memory = guarded_pointer (
    document_of document >>= λ doc.
    (outline directory doc.timeout_ms outline_polls has_memory).result)

pub api_metadata :
    Option Pages → Wait Exp → Wait Exp → (Exp → Option (List Key)) → Bool → Reply (Option Bytes)
api_metadata document global_polls first_polls keys_of has_memory = guarded_pointer (
    document_of document >>= λ doc.
    (metadata doc.timeout_ms global_polls first_polls keys_of has_memory).result)
