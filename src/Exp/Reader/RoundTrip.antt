-- ===== src/Exp/Reader/RoundTrip.antt =====
-- What `miniexp_read_r` gives for what `print` of miniexp.cpp has put out.
use readflex.Exp.Reader.Readable.{
  Readable, print-Begins, is_atom, atom-read_here, print-not_empty, Readable-real, tail-Delimits,
  atom-tail,
}
use readflex.Exp.Reader.Rounds.{
  dotted-read, read-Begins, first-Read, later-Read, end-Read, list-Read,
}
use readflex.Exp.Printer.{print, print_tail}
use readflex.Exp.Reader.Words.{Delimits}
use readflex.Exp.Reader.{read_miniexp, read_list, miniexp_read_r}
use readflex.Exp.Text.{Flags}
use readflex.Exp.Number.{Double}
use readflex.Exp.{Exp, nil, cons, number, symbol, string, object, dummy}
use readflex.Prelude.{
  ℕ, zero, suc, ◌+◌, ◌*◌, ◌≤◌, ◌≡◌, refl, ap, arith, Option, some, [], ◌∷◌, ◌++◌, append_assoc,
  length-append, Bytes, codes, length, true,
}

module _ (strtod : Bytes → Option Double) (flags : Flags) where
  -- A pair's end: the dot, the atom, and the parenthesis.
  dotted_atom :
      (fuel : ℕ) (e : Exp) (pname t : Bytes)
      → is_atom strtod flags e ≡ true
      → Readable strtod flags e
      → read_list
          (suc (suc fuel))
          strtod
          (codes " . " ++ ((print e strtod pname flags ++ b')' ∷ []) ++ t))
        ≡ (some e, t)
  unfolding read_list
  dotted_atom fuel e pname t h r =
      let u = print e strtod pname flags ++ b')' ∷ t in
      let b = print-Begins strtod flags e pname (b')' ∷ t) r refl in
      let read =
        read-Begins strtod fuel u (e, b')' ∷ t) b
          (atom-read_here strtod flags (read_miniexp fuel strtod) (read_list fuel strtod) e pname
            (b')' ∷ t) h r refl) in
      rw (append_assoc (print e strtod pname flags) (b')' ∷ []) t)
        (dotted-read (read_miniexp (suc fuel) strtod) (read_list (suc fuel) strtod) u t e b read)

  atom-Read :
      (e : Exp) (pname t : Bytes) (fuel : ℕ)
      → is_atom strtod flags e ≡ true
      → Readable strtod flags e
      → Delimits t
      → 2 * length (print e strtod pname flags) ≤ fuel
      → read_miniexp fuel strtod (print e strtod pname flags ++ t) ≡ (e, t)
  atom-Read e pname t zero h r d l = absurd (omega (arith, print-not_empty strtod flags e pname r))
  atom-Read e pname t (suc fuel) h r d l =
      read-Begins strtod fuel _ (e, t) (print-Begins strtod flags e pname t r d)
        (atom-read_here strtod flags (read_miniexp fuel strtod) (read_list fuel strtod) e pname t h
          r d)

  atom_tail-Read :
      (e : Exp) (pname t : Bytes) (fuel : ℕ)
      → is_atom strtod flags e ≡ true
      → Readable strtod flags e
      → 2 * length (print_tail e strtod pname flags) ≤ fuel
      → read_list fuel strtod (print_tail e strtod pname flags ++ t) ≡ (some e, t)
  atom_tail-Read e pname t zero h r l =
      absurd (omega (arith, ap length (atom-tail strtod flags e pname h), l))
  atom_tail-Read e pname t (suc zero) h r l =
      absurd (omega (arith, ap length (atom-tail strtod flags e pname h), l))
  atom_tail-Read e pname t (suc (suc fuel)) h r l =
      rw (atom-tail strtod flags e pname h) (dotted_atom fuel e pname t h r)

  print_cons :
      (a d : Exp) (pname t : Bytes)
      → print (cons a d) strtod pname flags ++ t
        ≡ b'(' ∷ (print a strtod pname flags ++ (print_tail d strtod pname flags ++ t))
  unfolding print
  print_cons a d pname t =
      ap (λ s. b'(' ∷ s)
        (append_assoc (print a strtod pname flags) (print_tail d strtod pname flags) t)

  tail_cons :
      (a d : Exp) (pname t : Bytes)
      → print_tail (cons a d) strtod pname flags ++ t
        ≡ b' ' ∷ (print a strtod pname flags ++ (print_tail d strtod pname flags ++ t))
  unfolding print_tail
  tail_cons a d pname t =
      ap (λ s. b' ' ∷ s)
        (append_assoc (print a strtod pname flags) (print_tail d strtod pname flags) t)

  -- The characters of a pair, and of the rest of a list that starts with one.
  length-print :
      (a d : Exp) (pname : Bytes)
      → length (print (cons a d) strtod pname flags)
        ≡ suc (length (print a strtod pname flags) + length (print_tail d strtod pname flags))
  unfolding print
  length-print a d pname =
      ap suc (length-append (print a strtod pname flags) (print_tail d strtod pname flags))

  length-tail :
      (a d : Exp) (pname : Bytes)
      → length (print_tail (cons a d) strtod pname flags)
        ≡ suc (length (print a strtod pname flags) + length (print_tail d strtod pname flags))
  unfolding print_tail
  length-tail a d pname =
      ap suc (length-append (print a strtod pname flags) (print_tail d strtod pname flags))

  nil-Read :
      (pname t : Bytes) (fuel : ℕ)
      → 2 * length (print nil strtod pname flags) ≤ fuel
      → read_miniexp fuel strtod (print nil strtod pname flags ++ t) ≡ (nil, t)
  unfolding print
  nil-Read pname t zero l = absurd (omega arith)
  nil-Read pname t (suc zero) l = absurd (omega arith)
  nil-Read pname t (suc (suc fuel)) l =
      list-Read strtod (suc fuel) (b')' ∷ t) t nil (end-Read strtod fuel t)

  nil_tail-Read :
      (pname t : Bytes) (fuel : ℕ)
      → 2 * length (print_tail nil strtod pname flags) ≤ fuel
      → read_list fuel strtod (print_tail nil strtod pname flags ++ t) ≡ (some nil, t)
  unfolding print_tail
  nil_tail-Read pname t zero l = absurd (omega arith)
  nil_tail-Read pname t (suc fuel) l = end-Read strtod fuel t

  mutual
    print-Read :
        (e : Exp) (pname t : Bytes) (fuel : ℕ)
        → Readable strtod flags e
        → Delimits t
        → 2 * length (print e strtod pname flags) ≤ fuel
        → read_miniexp fuel strtod (print e strtod pname flags ++ t) ≡ (e, t)
    print-Read nil pname t fuel r d l = nil-Read pname t fuel l
    print-Read (number n) pname t fuel r d l = atom-Read (number n) pname t fuel refl r d l
    print-Read (symbol s) pname t fuel r d l = atom-Read (symbol s) pname t fuel refl r d l
    print-Read (string s) pname t fuel r d l = atom-Read (string s) pname t fuel refl r d l
    print-Read object pname t fuel r d l = absurd (ground arith)
    print-Read dummy pname t fuel r d l = absurd (ground arith)
    print-Read (cons a b) pname t zero r d l = absurd (omega (arith, length-print a b pname))
    print-Read (cons a b) pname t (suc zero) r d l = absurd (omega (arith, length-print a b pname))
    print-Read (cons a b) pname t (suc (suc fuel)) (r, r') d l =
        let next = print_tail b strtod pname flags ++ t in
        let d' = tail-Delimits strtod flags b pname t r' in
        rw (print_cons a b pname t) (
          list-Read strtod (suc fuel) _ t (cons a b) (
            first-Read strtod fuel _ next t a b (print-Begins strtod flags a pname next r d')
              (print-Read a pname next fuel r d' (omega (arith, length-print a b pname, l)))
              (Readable-real strtod flags a r)
              (tail-Read b pname t fuel r' (omega (arith, length-print a b pname, l)))))

    tail-Read :
        (d : Exp) (pname t : Bytes) (fuel : ℕ)
        → Readable strtod flags d
        → 2 * length (print_tail d strtod pname flags) ≤ fuel
        → read_list fuel strtod (print_tail d strtod pname flags ++ t) ≡ (some d, t)
    tail-Read nil pname t fuel r l = nil_tail-Read pname t fuel l
    tail-Read (number n) pname t fuel r l = atom_tail-Read (number n) pname t fuel refl r l
    tail-Read (symbol s) pname t fuel r l = atom_tail-Read (symbol s) pname t fuel refl r l
    tail-Read (string s) pname t fuel r l = atom_tail-Read (string s) pname t fuel refl r l
    tail-Read object pname t fuel r l = absurd (ground arith)
    tail-Read dummy pname t fuel r l = absurd (ground arith)
    tail-Read (cons a b) pname t zero r l = absurd (omega (arith, length-tail a b pname))
    tail-Read (cons a b) pname t (suc fuel) (r, r') l =
        let next = print_tail b strtod pname flags ++ t in
        let d' = tail-Delimits strtod flags b pname t r' in
        rw (tail_cons a b pname t) (
          later-Read strtod fuel _ next t a b (print-Begins strtod flags a pname next r d')
            (print-Read a pname next fuel r d' (omega (arith, length-tail a b pname, l)))
            (Readable-real strtod flags a r)
            (tail-Read b pname t fuel r' (omega (arith, length-tail a b pname, l))))

  -- An expression that can be written down is read back as it was, with every flag of the printer, and
  -- the stream is left at the blank or the parenthesis behind it.
  pub miniexp_read_r-print :
      (e : Exp) (pname t : Bytes)
      → Readable strtod flags e
      → Delimits t
      → miniexp_read_r strtod (print e strtod pname flags ++ t) ≡ (e, t)
  unfolding miniexp_read_r
  miniexp_read_r-print e pname t r d =
      print-Read e pname t _ r d (omega (arith, length-append (print e strtod pname flags) t))
