-- ===== src/Exp/Reader/Rounds.antt =====
-- The rounds of the reader over the elements of a list.
use readflex.Exp.Reader.Atoms.{Begins}
use readflex.Exp.Reader.{
  skip_blank, is_dummy, read_here, read_element, read_cdr, close_list, read_miniexp, read_list,
}
use readflex.Exp.Number.{Double}
use readflex.Exp.{Exp, nil, cons}
use readflex.Prelude.{ℕ, suc, ◌≡◌, refl, ap, ◌∙◌, Option, some, ◌∷◌, Bytes, false, subst}

skip_blank-Begins : (u : Bytes) → Begins u → skip_blank u ≡ u
unfolding skip_blank
skip_blank-Begins u (c, v, e, blank, _, _) = rw (e, blank) refl

element-read :
    (read : Bytes → Exp × Bytes) (more : Bytes → Option Exp × Bytes) (u s' s'' : Bytes) (e l : Exp)
    → Begins u
    → read u ≡ (e, s')
    → is_dummy e ≡ false
    → more s' ≡ (some l, s'')
    → read_element read more u ≡ (some (cons e l), s'')
unfolding read_element
element-read read more u s' s'' e l (c, v, eq, blank, close, dot) r n m =
    let r' : read (c ∷ v) ≡ (e, s') = subst (λ u. read u ≡ (e, s')) eq r in
    rw (eq, read_element, close, dot, r', n, m) refl

cdr-read :
    (read : Bytes → Exp × Bytes) (u t : Bytes) (e : Exp)
    → Begins u
    → read u ≡ (e, b')' ∷ t)
    → read_cdr read u ≡ (some e, t)
unfolding close_list skip_blank
cdr-read read u t e (c, v, eq, _, close, _) r =
    let r' : read (c ∷ v) ≡ (e, b')' ∷ t) = subst (λ u. read u ≡ (e, b')' ∷ t)) eq r in
    rw (eq, read_cdr, close, r') refl

pub dotted-read :
    (read : Bytes → Exp × Bytes) (more : Bytes → Option Exp × Bytes) (u t : Bytes) (e : Exp)
    → Begins u
    → read u ≡ (e, b')' ∷ t)
    → read_element read more (b'.' ∷ b' ' ∷ u) ≡ (some e, t)
unfolding read_element
dotted-read read more u t e b r =
    ap (read_cdr read) (skip_blank-Begins u b) ∙ cdr-read read u t e b r

module _ (strtod : Bytes → Option Double) where
  -- One round of the reader where it stands on an expression.
  pub read-Begins :
      (fuel : ℕ) (u : Bytes) (r : Exp × Bytes)
      → Begins u
      → read_here (read_miniexp fuel strtod) (read_list fuel strtod) strtod u ≡ r
      → read_miniexp (suc fuel) strtod u ≡ r
  unfolding read_miniexp
  read-Begins fuel u r b e = rw (skip_blank-Begins u b) e

  -- The rounds for a first and for a later element, and the end of a list.
  pub first-Read :
      (fuel : ℕ) (u s t : Bytes) (a d : Exp)
      → Begins u
      → read_miniexp fuel strtod u ≡ (a, s)
      → is_dummy a ≡ false
      → read_list fuel strtod s ≡ (some d, t)
      → read_list (suc fuel) strtod u ≡ (some (cons a d), t)
  unfolding read_list
  first-Read fuel u s t a d b e r m =
      rw (skip_blank-Begins u b)
        (element-read (read_miniexp fuel strtod) (read_list fuel strtod) u s t a d b e r m)

  pub later-Read :
      (fuel : ℕ) (u s t : Bytes) (a d : Exp)
      → Begins u
      → read_miniexp fuel strtod u ≡ (a, s)
      → is_dummy a ≡ false
      → read_list fuel strtod s ≡ (some d, t)
      → read_list (suc fuel) strtod (b' ' ∷ u) ≡ (some (cons a d), t)
  later-Read fuel u s t a d b e r m = unfold read_list in first-Read fuel u s t a d b e r m

  pub end-Read : (fuel : ℕ) (t : Bytes) → read_list (suc fuel) strtod (b')' ∷ t) ≡ (some nil, t)
  unfolding read_list
  end-Read fuel t = refl

  pub list-Read :
      (fuel : ℕ) (u t : Bytes) (l : Exp)
      → read_list fuel strtod u ≡ (some l, t)
      → read_miniexp (suc fuel) strtod (b'(' ∷ u) ≡ (l, t)
  unfolding read_miniexp
  list-Read fuel u t l e = rw (read_here, e) refl
