-- ===== src/Exp/Reader/Fuel.antt =====
-- The fuel of `read_miniexp`: a reading takes a character at least, and stops with the fuel that
-- `miniexp_read_r` gives it.
use readflex.Ctype.{is_space}
use readflex.Exp.Number.{Double}
use readflex.Exp.Reader.Progress.{
  if-le, skip_blank-le, skip_line-le, read_c_string-le, read_quoted_symbol-le, read_word-le,
}
use readflex.Exp.Reader.{
  skip_blank, skip_line, read_word, ends_word, read_symbol_or_number, is_dummy, starts_dot,
  starts_hashes, close_list, cons_list, list_or_error, read_cdr, read_here, read_element,
  read_c_string, read_quoted_symbol, read_miniexp, read_list, miniexp_read_r,
}
use readflex.Exp.{Exp, nil, dummy}
use readflex.Prelude.{
  ℕ, zero, suc, ◌+◌, ◌-◌, ◌*◌, ◌≤◌, ◌<◌, ◌≡◌, refl, ap, ◌∙◌, arith, false, Bool-cases, inl, inr,
  ◌⊎◌, Option, none, some, [], ◌∷◌, Bytes, length, ◌==◌,
}

-- Where the blanks end.
abbrev First : Bytes → Bytes → Type 0
First s u =
    (u ≡ []) ⊎ ((c : ℕ) × (v : Bytes) × (u ≡ c ∷ v) × (is_space c ≡ false) × (length v < length s))

skip_blank-First : (s : Bytes) → First s (skip_blank s)
unfolding skip_blank
skip_blank-First [] = inl refl
skip_blank-First (c ∷ s) = elim (Bool-cases (is_space c)) [
  | inl blank ↦ elim (skip_blank-First s) [
    | inl e ↦ inl (rw (skip_blank, blank) e)
    | inr (d, v, e, h, l) ↦ inr (d, v, rw (skip_blank, blank) e, h, omega arith)
  ]
  | inr h ↦ inr (c, s, rw (skip_blank, h) refl, h, omega arith)
]

-- A line feed is a blank.
skip_line-shorter : (c : ℕ) (s : Bytes) → is_space c ≡ false → length (skip_line (c ∷ s)) ≤ length s
unfolding skip_line
skip_line-shorter c s h = let le = skip_line-le s in ground arith

read_symbol_or_number-le :
    (strtod : Bytes → Option Double) (c : ℕ) (s : Bytes)
    → is_space c ≡ false
    → length (read_symbol_or_number strtod (c ∷ s)).1 ≤ length s
unfolding read_symbol_or_number
read_symbol_or_number-le strtod c s h = elim (Bool-cases (ends_word c)) [
  | inl e ↦ rw (read_word, e) (skip_line-shorter c s h)
  | inr w ↦ rw (read_word, w) (read_word-le s)
]

list_or_error-rest : (r : Option Exp × Bytes) → (list_or_error r).1 ≡ r.1
list_or_error-rest (none, s) = refl
list_or_error-rest (some l, s) = refl

cons_list-rest : (e : Exp) (r : Option Exp × Bytes) → (cons_list e r).1 ≡ r.1
cons_list-rest e (none, s) = refl
cons_list-rest e (some l, s) = refl

close_list-le : (e : Exp) (s : Bytes) → length (close_list e s).1 ≤ length s
unfolding close_list
close_list-le e [] = omega arith
close_list-le e (c ∷ s) =
    if-le (c == b')') (some e, s) (none, skip_line (c ∷ s)) _ (omega arith) (skip_line-le (c ∷ s))

here-le :
    (again : Bytes → Exp × Bytes) (list : Bytes → Option Exp × Bytes)
    (strtod : Bytes → Option Double) (c : ℕ) (s : Bytes)
    → is_space c ≡ false
    → length (again s).1 ≤ length s
    → length (list s).1 ≤ length s
    → length (read_here again list strtod (c ∷ s)).1 ≤ length s
unfolding read_here
here-le again list strtod c s h a l = if-le (c == b')') (again s) _ _ a (
    if-le (c == b'(') (list_or_error (list s)) _ _
      (omega (arith, ap length (list_or_error-rest (list s)), l))
      (if-le (c == b'"') (read_c_string s) _ _ (read_c_string-le s) (
        if-le (c == b'|') (read_quoted_symbol s) _ _ (read_quoted_symbol-le s) (
          if-le (starts_hashes (c ∷ s)) (dummy, skip_line s) (read_symbol_or_number strtod (c ∷ s))
            _ (skip_line-le s) (read_symbol_or_number-le strtod c s h)))))

cdr-le :
    (read : Bytes → Exp × Bytes) (s : Bytes)
    → ((v : Bytes) → length (read v).1 ≤ length v)
    → length (read_cdr read s).1 ≤ length s
cdr-le read [] h =
    omega
      (arith, close_list-le (read []).0 (skip_blank (read []).1), skip_blank-le (read []).1, h [])
cdr-le read (c ∷ s) h =
    let r = read (c ∷ s) in
    if-le (c == b')') (some nil, s) (close_list r.0 (skip_blank r.1)) _ (omega arith)
      (omega (arith, close_list-le r.0 (skip_blank r.1), skip_blank-le r.1, h (c ∷ s)))

element-le :
    (read : Bytes → Exp × Bytes) (more : Bytes → Option Exp × Bytes) (s : Bytes)
    → ((v : Bytes) → length (read v).1 ≤ length v)
    → ((v : Bytes) → length (more v).1 ≤ length v)
    → length (read_element read more s).1 ≤ length s
unfolding read_element
element-le read more [] h k = omega arith
element-le read more (c ∷ s) h k =
    let r = read (c ∷ s) in
    if-le (c == b')') (some nil, s) _ _ (omega arith)
      (if-le (starts_dot (c ∷ s)) (read_cdr read (skip_blank s)) _ _
        (omega (arith, cdr-le read (skip_blank s) h, skip_blank-le s))
        (if-le (is_dummy r.0) (none, skip_line r.1) (cons_list r.0 (more r.1)) _
          (omega (arith, skip_line-le r.1, h (c ∷ s)))
          (omega (arith, ap length (cons_list-rest r.0 (more r.1)), k r.1, h (c ∷ s)))))

here-same :
    (again again' : Bytes → Exp × Bytes) (list list' : Bytes → Option Exp × Bytes)
    (strtod : Bytes → Option Double) (c : ℕ) (s : Bytes)
    → again s ≡ again' s
    → list s ≡ list' s
    → read_here again list strtod (c ∷ s) ≡ read_here again' list' strtod (c ∷ s)
unfolding read_here
here-same again again' list list' strtod c s h k = rw (read_here, h, k) refl

cdr-same :
    (read read' : Bytes → Exp × Bytes) (s : Bytes)
    → ((v : Bytes) → length v ≤ length s → read v ≡ read' v)
    → read_cdr read s ≡ read_cdr read' s
cdr-same read read' [] h = rw (h [] (omega arith)) refl
cdr-same read read' (c ∷ s) h = rw (read_cdr, h (c ∷ s) (omega arith)) refl

element-same :
    (read read' : Bytes → Exp × Bytes) (more more' : Bytes → Option Exp × Bytes) (s : Bytes)
    → ((v : Bytes) → length v ≤ length s → read v ≡ read' v)
    → ((v : Bytes) → length v < length s → more v ≡ more' v)
    → ((v : Bytes) → length (read' v).1 ≤ length v - 1)
    → read_element read more s ≡ read_element read' more' s
unfolding read_element
element-same read read' more more' [] h k l = refl
element-same read read' more more' (c ∷ s) h k l =
    let same_read = h (c ∷ s) (omega arith) in
    let same_more = k (read' (c ∷ s)).1 (omega (arith, l (c ∷ s))) in
    let same_cdr =
      cdr-same read read' (skip_blank s) λ v i. h v (omega (arith, i, skip_blank-le s)) in
    rw (read_element, same_cdr, same_read, same_more) refl

module _ (strtod : Bytes → Option Double) where
  step-shorter :
      (fuel : ℕ) (s : Bytes)
      → ((v : Bytes) → length (read_miniexp fuel strtod v).1 ≤ length v - 1)
      → ((v : Bytes) → length (read_list fuel strtod v).1 ≤ length v)
      → length (read_miniexp (suc fuel) strtod s).1 ≤ length s - 1
  unfolding read_miniexp
  step-shorter fuel s h k = elim (skip_blank-First s) [
    | inl e ↦ rw e (unfold read_here in omega arith)
    | inr (c, v, e, i, l) ↦
        let le =
          here-le (read_miniexp fuel strtod) (read_list fuel strtod) strtod c v i
            (omega (arith, h v)) (k v) in
        rw e (omega (arith, le))
  ]

  list-le :
      (fuel : ℕ) (s : Bytes)
      → ((v : Bytes) → length (read_miniexp fuel strtod v).1 ≤ length v - 1)
      → ((v : Bytes) → length (read_list fuel strtod v).1 ≤ length v)
      → length (read_list (suc fuel) strtod s).1 ≤ length s
  unfolding read_list
  list-le fuel s h k = omega (
    arith,
    skip_blank-le s,
    element-le (read_miniexp fuel strtod) (read_list fuel strtod) (skip_blank s)
        (λ v. omega (arith, h v)) k,
  )

  no_fuel :
      ((v : Bytes) → length (read_miniexp zero strtod v).1 ≤ length v - 1)
      × ((v : Bytes) → length (read_list zero strtod v).1 ≤ length v)
  unfolding read_miniexp
  no_fuel = ((λ v. omega arith), (λ v. omega arith))

  -- A reading leaves less than there was, and nothing of an empty stream.
  both-shorter :
      (fuel : ℕ)
      → ((v : Bytes) → length (read_miniexp fuel strtod v).1 ≤ length v - 1)
        × ((v : Bytes) → length (read_list fuel strtod v).1 ≤ length v)
  both-shorter zero = no_fuel
  both-shorter (suc fuel) =
      let (h, k) = both-shorter fuel in ((λ s. step-shorter fuel s h k), (λ s. list-le fuel s h k))

  miniexp-same :
      (fuel : ℕ) (s : Bytes)
      → ((v : Bytes)
          → 2 * length v + 2 ≤ fuel
          → read_miniexp (suc fuel) strtod v ≡ read_miniexp fuel strtod v)
      → ((v : Bytes)
          → 2 * length v + 3 ≤ fuel
          → read_list (suc fuel) strtod v ≡ read_list fuel strtod v)
      → 2 * length s + 2 ≤ suc fuel
      → read_miniexp (suc (suc fuel)) strtod s ≡ read_miniexp (suc fuel) strtod s
  unfolding read_miniexp
  miniexp-same fuel s h k l = elim (skip_blank-First s) [
    | inl e ↦ rw e (unfold read_here in refl)
    | inr (c, v, e, _, shorter) ↦ rw e (
        here-same (read_miniexp (suc fuel) strtod) (read_miniexp fuel strtod)
          (read_list (suc fuel) strtod) (read_list fuel strtod) strtod c v (h v (omega arith))
          (k v (omega arith)))
  ]

  list-same :
      (fuel : ℕ) (s : Bytes)
      → ((v : Bytes)
          → 2 * length v + 2 ≤ fuel
          → read_miniexp (suc fuel) strtod v ≡ read_miniexp fuel strtod v)
      → ((v : Bytes)
          → 2 * length v + 3 ≤ fuel
          → read_list (suc fuel) strtod v ≡ read_list fuel strtod v)
      → 2 * length s + 3 ≤ suc fuel
      → read_list (suc (suc fuel)) strtod s ≡ read_list (suc fuel) strtod s
  unfolding read_list
  list-same fuel s h k l =
      let le = skip_blank-le s in
      element-same (read_miniexp (suc fuel) strtod) (read_miniexp fuel strtod)
        (read_list (suc fuel) strtod) (read_list fuel strtod) (skip_blank s)
        (λ v i. h v (omega arith)) (λ v i. k v (omega arith)) (both-shorter fuel).0

  -- One call more makes no difference where there is fuel for two on each character.
  both-same :
      (fuel : ℕ)
      → ((s : Bytes)
          → 2 * length s + 2 ≤ fuel
          → read_miniexp (suc fuel) strtod s ≡ read_miniexp fuel strtod s)
        × ((s : Bytes)
            → 2 * length s + 3 ≤ fuel
            → read_list (suc fuel) strtod s ≡ read_list fuel strtod s)
  both-same zero = ((λ s l. absurd (omega arith)), (λ s l. absurd (omega arith)))
  both-same (suc fuel) =
      let (h, k) = both-same fuel in ((λ s. miniexp-same fuel s h k), (λ s. list-same fuel s h k))

  more-same :
      (more fuel : ℕ) (s : Bytes)
      → 2 * length s + 2 ≤ fuel
      → read_miniexp (more + fuel) strtod s ≡ read_miniexp fuel strtod s
  more-same zero fuel s l = ap (λ n. read_miniexp n strtod s) (omega arith)
  more-same (suc more) fuel s l =
      ap (λ n. read_miniexp n strtod s) (omega arith)
      ∙ (both-same (more + fuel)).0 s (omega arith)
      ∙ more-same more fuel s l

  -- The reader stops on every input: more fuel than `miniexp_read_r` gives it changes nothing. It takes
  -- a character at least, if there is one.
  pub miniexp_read_r-enough :
      (fuel : ℕ) (s : Bytes)
      → 2 * length s + 2 ≤ fuel
      → (read_miniexp fuel strtod s ≡ miniexp_read_r strtod s)
        × (length (miniexp_read_r strtod s).1 ≤ length s - 1)
  unfolding miniexp_read_r
  miniexp_read_r-enough fuel s l =
      let n = 2 * length s + 2 in
      (
        ap (λ n. read_miniexp n strtod s) (omega arith) ∙ more-same (fuel - n) n s (omega arith),
        (both-shorter n).0 s,
      )
