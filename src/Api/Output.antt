-- ===== src/Api/Output.antt =====
-- `document_of` and the body of `pagecraft_djvu_page_info` of pagecraft_djvu.cpp, which writes through the
-- caller's pointers. What it has written stays written, also if it throws behind that.
use readflex.Prelude.{Bool, not, Option, none, some, ℤ, pos}
use readflex.Failure.{Result, ok, err, reject, document_closed, no_page_output}
use readflex.Page.{Pages, page_info, oriented_size}

-- The integers behind the pointers `width`, `height` and `dpi`, which are different ones.
pub record PageOutput : Type 0 where
  pub width : ℤ
  pub height : ℤ
  pub dpi : ℤ

abbrev pub Body : Type 0 → Type 0
Body A = PageOutput → Result A × PageOutput

infixl 5 ◌>>=◌ ◌>>◌
abbrev pub ◌>>=◌ : {A B : Type 0} → Body A → (A → Body B) → Body B
(m >>= f) out =
    let (result, out') = m out in elim result [ ok a ↦ f a out' | err e ↦ (err e, out') ]

abbrev pub ◌>>◌ : {B : Type 0} → Body (Unit {0}) → Body B → Body B
m >> k = m >>= λ _. k

-- A part that writes nothing, and one that only writes.
abbrev pub lift : {A : Type 0} → Result A → Body A
lift m out = (m, out)

abbrev pub write : (PageOutput → PageOutput) → Body (Unit {0})
write f out = (ok tt, f out)

unfoldable pub document_of {ℓ} : {A : Type ℓ} → Option A → Result A
document_of none = err document_closed
document_of (some doc) = ok doc

-- `has_outputs` is whether none of the pointers is null.
unfoldable pub page_output : Option Pages → ℤ → Bool → Body ℤ
unfolding document_of
page_output document page has_outputs = do
  lift (reject (not has_outputs) no_page_output)
  doc ← lift (document_of document)
  info ← lift (page_info doc page)
  let size = oriented_size info
  write (λ out. record out { width = size.0 })
  write (λ out. record out { height = size.1 })
  write (λ out. record out { dpi = info.dpi })
  lift (ok (pos 1))
