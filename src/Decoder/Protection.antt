-- ===== src/Decoder/Protection.antt =====
-- The list of the expressions that a document protects.
use readflex.Decoder.{is_protected, miniexp_protect, miniexp_release}
use readflex.Prelude.{
  ℕ, ◌≡◌, refl, ◌∙◌, arith, Bool, false, Bool-cases, inl, inr, List, [], ◌∷◌, ◌==◌, if◌then◌else◌,
}

-- An address stands in the list once at most.
pub Once : List ℕ → Type 0
Once [] = Unit
Once (p ∷ ps) = (is_protected ps p ≡ false) × Once ps

protect-Once :
    (ps : List ℕ) (expr : ℕ) (is_kept : Bool) → Once ps → Once (miniexp_protect ps expr is_kept)
unfolding miniexp_protect Once
protect-Once ps expr is_kept h = elim (Bool-cases (is_protected ps expr)) [
  | inl there ↦ rw there h
  | inr new ↦ elim (Bool-cases is_kept) [
    | inl kept ↦ rw (new, kept) (new, h)
    | inr off ↦ rw (new, off) h
  ]
]

release-is_protected :
    (ps : List ℕ) (expr other : ℕ)
    → is_protected (miniexp_release ps expr) other
      ≡ (if expr == other then false else is_protected ps other)
unfolding is_protected miniexp_release
release-is_protected [] expr other = ground arith
release-is_protected (p ∷ ps) expr other =
    let ih = release-is_protected ps expr other in ground arith

release-unprotected :
    (ps : List ℕ) (expr : ℕ) → is_protected ps expr ≡ false → miniexp_release ps expr ≡ ps
unfolding is_protected miniexp_release
release-unprotected [] expr h = refl
release-unprotected (p ∷ ps) expr h =
    let ih = release-unprotected ps expr (ground arith) in ground arith

release-Once : (ps : List ℕ) (expr : ℕ) → Once ps → Once (miniexp_release ps expr)
unfolding miniexp_release Once
release-Once [] expr h = tt
release-Once (p ∷ ps) expr (new, h) = elim (Bool-cases (p == expr)) [
  | inl same ↦ rw same (release-Once ps expr h)
  | inr other ↦
      rw other (rw (release-is_protected ps expr p, new) (ground arith), release-Once ps expr h)
]

others :
    (ps : List ℕ) (expr other : ℕ) (is_kept : Bool)
    → (if expr == other then false else is_protected (miniexp_protect ps expr is_kept) other)
      ≡ (if expr == other then false else is_protected ps other)
unfolding miniexp_protect is_protected
others ps expr other is_kept = ground arith

-- Whether an expression was protected before or not, behind `miniexp_protect` and
-- `ddjvu_miniexp_release` it is not; each other is as it was.
release-protect :
    (ps : List ℕ) (expr other : ℕ) (is_kept : Bool)
    → is_protected (miniexp_release (miniexp_protect ps expr is_kept) expr) other
      ≡ (if expr == other then false else is_protected ps other)
release-protect ps expr other is_kept =
    release-is_protected (miniexp_protect ps expr is_kept) expr other ∙ others ps expr other is_kept
