-- ===== src/Exp/Reader/Readable.antt =====
-- The expressions that can be written down, and how the reader meets what is printed for them.
use readflex.Ctype.{is_digit}
use readflex.Exp.Printer.{
  must_quote_symbol, quoted_symbol, print_int, print_symbol, print, print_tail,
}
use readflex.Exp.Reader.Atoms.{
  Begins, IsPlain, word-Begins, read_here-word, read_here-string, read_here-quoted,
}
use readflex.Exp.Reader.Texts.{IsByte}
use readflex.Exp.Reader.Words.{Delimits}
use readflex.Exp.Reader.Numbers.{
  Fits, to_string-Decimal, print_int-InWord, print_int-not_empty, number-read,
}
use readflex.Exp.Reader.Symbols.{IsQuotable, has_special-InWord, plain_symbol-read}
use readflex.Exp.Reader.{is_dummy, starts_dot, starts_hashes, read_here}
use readflex.Exp.Text.{Flags, print_c_string}
use readflex.Exp.Number.{Double, fits_number}
use readflex.Exp.{Exp, nil, cons, number, symbol, string, object, dummy}
use readflex.Json.{to_string}
use readflex.Prelude.{
  ℕ, suc, ◌^◌, ◌<◌, ◌≡◌, refl, ap, ◌∙◌, inl, inr, arith, Option, [], ◌∷◌, ◌++◌, length-append, All,
  Bytes, codes, length, Bool, true, false, not, Bool-cases, ◌==◌, ◌||◌, same, ℤ, pos, negsuc,
}

module _ (strtod : Bytes → Option Double) (flags : Flags) where
  -- A symbol of printable characters, and of those beyond ASCII, that has a name. A name that is not
  -- put between bars is no dot, and has no two hashes at its start.
  pub record IsReadable (s : Bytes) : Type 0 where
    pub chars : All IsQuotable s
    pub not_empty : 0 < length s
    pub distinct :
        (must_quote_symbol strtod s flags || not (starts_hashes s || same s (codes "."))) ≡ true

  -- An expression that can be written down.
  abbrev pub Readable : Exp → Type 0
  Readable nil = Unit
  Readable (number n) = Fits n
  Readable (symbol s) = IsReadable s
  Readable (string s) = All IsByte s
  Readable object = false ≡ true
  Readable dummy = false ≡ true
  Readable (cons a d) = Readable a × Readable d

-- A digit or a minus is no hash and no dot.
number-start :
    (c : ℕ) (w : Bytes)
    → (is_digit c || c == b'-') ≡ true
    → (starts_hashes (c ∷ w) ≡ false) × (same (c ∷ w) (codes ".") ≡ false)
unfolding starts_hashes same
number-start c [] h = (refl, ground arith)
number-start c (d ∷ w) h = (ground arith, ground arith)

number-distinct :
    (n : ℤ)
    → Fits n
    → (starts_hashes (print_int n) ≡ false) × (same (print_int n) (codes ".") ≡ false)
unfolding print_int
number-distinct (pos n) h =
    let room : n < 2 ^ 29 = unfold fits_number in ground arith in
    let (c, cs, e, v, u) = to_string-Decimal n (omega arith) in
    rw e (number-start c cs (ground arith))
number-distinct (negsuc n) h = number-start b'-' (to_string (suc n)) refl

number-IsPlain : (n : ℤ) → Fits n → IsPlain (print_int n)
number-IsPlain n h = record {
  chars = print_int-InWord n;
  not_empty = print_int-not_empty n;
  no_hashes = (number-distinct n h).0;
  no_dot = (number-distinct n h).1;
}

mark-Begins : (c : ℕ) (u : Bytes) → (c == b'(' || c == b'"' || c == b'|') ≡ true → Begins (c ∷ u)
unfolding starts_dot
mark-Begins c [] h = (c, [], refl, ground arith, ground arith, refl)
mark-Begins c (d ∷ u) h = (c, d ∷ u, refl, ground arith, ground arith, ground arith)

module _ (strtod : Bytes → Option Double) (flags : Flags) where
  symbol-IsPlain :
      (s : Bytes) → IsReadable strtod flags s → must_quote_symbol strtod s flags ≡ false → IsPlain s
  unfolding must_quote_symbol
  symbol-IsPlain s r h = record {
    chars = has_special-InWord s (ground arith);
    not_empty = r.not_empty;
    no_hashes = let d = r.distinct in ground arith;
    no_dot = let d = r.distinct in ground arith;
  }

  print_symbol-quoted :
      (s : Bytes)
      → must_quote_symbol strtod s flags ≡ true
      → print_symbol strtod s flags ≡ quoted_symbol s
  unfolding print_symbol
  print_symbol-quoted s h = rw h refl

  print_symbol-plain :
      (s : Bytes) → must_quote_symbol strtod s flags ≡ false → print_symbol strtod s flags ≡ s
  unfolding print_symbol
  print_symbol-plain s h = rw h refl

  -- What is printed for `e` is an element of a list.
  pub print-Begins :
      (e : Exp) (pname t : Bytes)
      → Readable strtod flags e
      → Delimits t
      → Begins (print e strtod pname flags ++ t)
  unfolding print
  print-Begins nil pname t r d = mark-Begins b'(' (b')' ∷ t) refl
  print-Begins (number n) pname t r d = word-Begins (print_int n) t (number-IsPlain n r) d
  print-Begins (symbol s) pname t r d = elim (Bool-cases (must_quote_symbol strtod s flags)) [
    | inl quoted ↦
        rw (print_symbol-quoted s quoted) (unfold quoted_symbol in mark-Begins b'|' _ refl)
    | inr plain ↦ rw (print_symbol-plain s plain) (word-Begins s t (symbol-IsPlain s r plain) d)
  ]
  print-Begins (string s) pname t r d = unfold print_c_string in mark-Begins b'"' _ refl
  print-Begins (cons a b) pname t r d = mark-Begins b'(' _ refl
  print-Begins object pname t r d = absurd (ground arith)
  print-Begins dummy pname t r d = absurd (ground arith)

  -- An expression that is neither a pair nor the empty list.
  abbrev pub is_atom : Exp → Bool
  is_atom (number n) = true
  is_atom (symbol s) = true
  is_atom (string s) = true
  is_atom _ = false

  pub atom-read_here :
      (again : Bytes → Exp × Bytes) (list : Bytes → Option Exp × Bytes) (e : Exp) (pname t : Bytes)
      → is_atom e ≡ true
      → Readable strtod flags e
      → Delimits t
      → read_here again list strtod (print e strtod pname flags ++ t) ≡ (e, t)
  unfolding print
  atom-read_here again list (number n) pname t h r d =
      read_here-word again list strtod (print_int n) t (number-IsPlain n r) d
      ∙ number-read strtod n t r d
  atom-read_here again list (symbol s) pname t h r d =
      elim (Bool-cases (must_quote_symbol strtod s flags)) [
        | inl quoted ↦
            rw (print_symbol-quoted s quoted) (read_here-quoted again list strtod s t r.chars d)
        | inr plain ↦ rw (print_symbol-plain s plain) (
            read_here-word again list strtod s t (symbol-IsPlain s r plain) d
            ∙ plain_symbol-read strtod s t flags plain r.not_empty d)
      ]
  atom-read_here again list (string s) pname t h r d =
      read_here-string again list strtod s t flags r
  atom-read_here again list nil pname t h r d = absurd (ground arith)
  atom-read_here again list (cons a b) pname t h r d = absurd (ground arith)
  atom-read_here again list object pname t h r d = absurd (ground arith)
  atom-read_here again list dummy pname t h r d = absurd (ground arith)

  pub print-not_empty :
      (e : Exp) (pname : Bytes) → Readable strtod flags e → 0 < length (print e strtod pname flags)
  print-not_empty e pname r =
      let (c, u, eq, _, _, _) = print-Begins e pname [] r tt in
      omega (arith, ap length eq, length-append (print e strtod pname flags) [])

  pub Readable-real : (e : Exp) → Readable strtod flags e → is_dummy e ≡ false
  Readable-real nil r = refl
  Readable-real (number n) r = refl
  Readable-real (symbol s) r = refl
  Readable-real (string s) r = refl
  Readable-real (cons a d) r = refl
  Readable-real object r = refl
  Readable-real dummy r = absurd (ground arith)

  pub tail-Delimits :
      (d : Exp) (pname t : Bytes)
      → Readable strtod flags d
      → Delimits (print_tail d strtod pname flags ++ t)
  unfolding print_tail
  tail-Delimits nil pname t r = refl
  tail-Delimits (number n) pname t r = refl
  tail-Delimits (symbol s) pname t r = refl
  tail-Delimits (string s) pname t r = refl
  tail-Delimits (cons a d) pname t r = refl
  tail-Delimits object pname t r = refl
  tail-Delimits dummy pname t r = refl

  pub atom-tail :
      (e : Exp) (pname : Bytes)
      → is_atom e ≡ true
      → print_tail e strtod pname flags ≡ codes " . " ++ (print e strtod pname flags ++ b')' ∷ [])
  unfolding print print_tail
  atom-tail (number n) pname h = refl
  atom-tail (symbol s) pname h = refl
  atom-tail (string s) pname h = refl
  atom-tail nil pname h = absurd (ground arith)
  atom-tail (cons a b) pname h = absurd (ground arith)
  atom-tail object pname h = absurd (ground arith)
  atom-tail dummy pname h = absurd (ground arith)
