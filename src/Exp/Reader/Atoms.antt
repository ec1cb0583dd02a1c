-- ===== src/Exp/Reader/Atoms.antt =====
-- How the reader starts on what the printer gives for an expression that is no pair.
use readflex.Ctype.{is_space}
use readflex.Exp.Printer.{double_bars, quoted_symbol}
use readflex.Exp.Reader.Texts.{IsByte, read_c_string-print_c_string}
use readflex.Exp.Reader.Words.{InWord, Delimits}
use readflex.Exp.Reader.Symbols.{IsQuotable, quoted_symbol-read}
use readflex.Exp.Reader.{
  ends_word, starts_dot, starts_hashes, read_here, read_symbol_or_number, read_quoted_symbol,
  read_c_string,
}
use readflex.Exp.Text.{Flags, print_c_string, print_chars}
use readflex.Exp.Number.{Double}
use readflex.Exp.{Exp, symbol, string}
use readflex.Prelude.{
  ℕ, ◌<◌, ◌≡◌, refl, ap, ◌∙◌, arith, Option, [], ◌∷◌, ◌++◌, append_assoc, All, Bytes, codes, length,
  false, ◌==◌, same,
}

-- What the loop over a list takes for an element.
abbrev pub Begins : Bytes → Type 0
Begins s =
    (c : ℕ) × (u : Bytes) × (s ≡ c ∷ u)
    × (is_space c ≡ false)
    × ((c == b')') ≡ false)
    × (starts_dot (c ∷ u) ≡ false)

-- A word is no dot and no error.
pub record IsPlain (w : Bytes) : Type 0 where
  pub chars : All InWord w
  pub not_empty : 0 < length w
  pub no_hashes : starts_hashes w ≡ false
  pub no_dot : same w (codes ".") ≡ false

InWord-Begins : (c : ℕ) (u : Bytes) → InWord c → starts_dot (c ∷ u) ≡ false → Begins (c ∷ u)
unfolding ends_word
InWord-Begins c u h d = (c, u, refl, ground arith, ground arith, d)

word-dot : (c : ℕ) (w t : Bytes) → IsPlain (c ∷ w) → Delimits t → starts_dot (c ∷ (w ++ t)) ≡ false
unfolding starts_dot same ends_word
word-dot c [] [] p e = refl
word-dot c [] (d ∷ t) p e = let n = p.no_dot in ground arith
word-dot c (d ∷ w) t p e = let n = p.chars.1.0 in ground arith

pub word-Begins : (w t : Bytes) → IsPlain w → Delimits t → Begins (w ++ t)
word-Begins [] t p e = absurd (omega (arith, p.not_empty))
word-Begins (c ∷ w) t p e = InWord-Begins c (w ++ t) p.chars.0 (word-dot c w t p e)

word-hashes : (w t : Bytes) → IsPlain w → Delimits t → starts_hashes (w ++ t) ≡ false
unfolding starts_hashes
word-hashes [] t p e = absurd (omega (arith, p.not_empty))
word-hashes (c ∷ []) [] p e = refl
word-hashes (c ∷ []) (d ∷ t) p e = ground arith
word-hashes (c ∷ d ∷ w) t p e = p.no_hashes

module _ (again : Bytes → Exp × Bytes) (list : Bytes → Option Exp × Bytes)
    (strtod : Bytes → Option Double) where
  pub read_here-word :
      (w t : Bytes)
      → IsPlain w
      → Delimits t
      → read_here again list strtod (w ++ t) ≡ read_symbol_or_number strtod (w ++ t)
  unfolding read_here
  read_here-word [] t p e = absurd (omega (arith, p.not_empty))
  read_here-word (c ∷ w) t p e =
      let h = p.chars.0 in
      let close : (c == b')') ≡ false = unfold ends_word in ground arith in
      let opens : (c == b'(') ≡ false = unfold ends_word in ground arith in
      let quote : (c == b'"') ≡ false = unfold ends_word in ground arith in
      let bar : (c == b'|') ≡ false = unfold ends_word in ground arith in
      rw (read_here, close, opens, quote, bar, word-hashes (c ∷ w) t p e) refl

  -- A quotation mark or a bar, and an opening parenthesis.
  pub read_here-string :
      (s t : Bytes) (flags : Flags)
      → All IsByte s
      → read_here again list strtod (print_c_string s flags ++ t) ≡ (string s, t)
  unfolding read_here print_c_string
  read_here-string s t flags b =
      ap read_c_string (append_assoc (print_chars (length s) flags s) (b'"' ∷ []) t)
      ∙ read_c_string-print_c_string flags s t b

  pub read_here-quoted :
      (s t : Bytes)
      → All IsQuotable s
      → Delimits t
      → read_here again list strtod (quoted_symbol s ++ t) ≡ (symbol s, t)
  unfolding read_here quoted_symbol
  read_here-quoted s t q e =
      ap read_quoted_symbol (append_assoc (double_bars s) (b'|' ∷ []) t)
      ∙ quoted_symbol-read s t q e
