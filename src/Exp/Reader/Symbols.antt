-- ===== src/Exp/Reader/Symbols.antt =====
-- Symbols, printed and read: plain ones, and those between bars.
use readflex.Exp.Reader.Words.{InWord, Delimits, Delimits-Ends, read_word_value}
use readflex.Ctype.{is_ascii, is_print}
use readflex.Exp.Number.{Double, str_is_double}
use readflex.Exp.Printer.{is_special, has_special, must_quote_symbol, double_bars}
use readflex.Exp.Reader.{
  read_bars, cons_char, read_quoted_symbol, ends_word, word_value, read_symbol_or_number,
}
use readflex.Exp.Text.{Flags}
use readflex.Exp.{symbol}
use readflex.Prelude.{
  ℕ, ◌<◌, ◌≡◌, refl, ap, ◌∙◌, inl, inr, arith, Option, some, [], ◌∷◌, ◌++◌, All, Bytes, length,
  false, not, Bool-cases, ◌==◌, ==_iff, ◌&&◌,
}

-- A symbol that must not be quoted.
pub has_special-InWord : (s : Bytes) → has_special s ≡ false → All InWord s
unfolding has_special is_special ends_word
has_special-InWord [] h = tt
has_special-InWord (c ∷ s) h = (ground arith, has_special-InWord s (ground arith))

word_value-symbol :
    (strtod : Bytes → Option Double) (s : Bytes) (flags : Flags)
    → must_quote_symbol strtod s flags ≡ false
    → word_value strtod s ≡ symbol s
unfolding must_quote_symbol word_value str_is_double
word_value-symbol strtod s flags h = ground arith

pub plain_symbol-read :
    (strtod : Bytes → Option Double) (s t : Bytes) (flags : Flags)
    → must_quote_symbol strtod s flags ≡ false
    → 0 < length s
    → Delimits t
    → read_symbol_or_number strtod (s ++ t) ≡ (symbol s, t)
plain_symbol-read strtod s t flags h l e =
    let special : has_special s ≡ false = unfold must_quote_symbol in ground arith in
    read_word_value strtod s t (has_special-InWord s special) l (Delimits-Ends t e)
    ∙ ap (λ x. (x, t)) (word_value-symbol strtod s flags h)

-- A character that may stand between bars.
abbrev pub IsQuotable : ℕ → Type 0
IsQuotable c = (is_ascii c && not (is_print c)) ≡ false

abbrev NoBar : Bytes → Type 0
NoBar [] = Unit
NoBar (c ∷ s) = (c == b'|') ≡ false

Delimits-NoBar : (t : Bytes) → Delimits t → NoBar t
Delimits-NoBar [] e = tt
Delimits-NoBar (c ∷ t) e = ground arith

read_bars-plain :
    (c : ℕ) (u : Bytes)
    → (c == b'|') ≡ false
    → IsQuotable c
    → read_bars (c ∷ u) ≡ cons_char c (read_bars u)
unfolding read_bars
read_bars-plain c [] h q = rw (h, q) refl
read_bars-plain c (d ∷ u) h q = rw (h, q) refl

read_bars-pair : (u : Bytes) → read_bars (b'|' ∷ b'|' ∷ u) ≡ cons_char b'|' (read_bars u)
unfolding read_bars
read_bars-pair u = refl

read_bars-end : (t : Bytes) → NoBar t → read_bars (b'|' ∷ t) ≡ (some [], t)
unfolding read_bars
read_bars-end [] h = refl
read_bars-end (c ∷ t) h = rw h refl

read_bars-double_bars :
    (s t : Bytes) → All IsQuotable s → NoBar t → read_bars (double_bars s ++ b'|' ∷ t) ≡ (some s, t)
unfolding double_bars
read_bars-double_bars [] t q n = read_bars-end t n
read_bars-double_bars (c ∷ s) t (q, qs) n = elim (Bool-cases (c == b'|')) [
  | inl bar ↦ rw ((==_iff c b'|').0 bar) (
      read_bars-pair (double_bars s ++ b'|' ∷ t)
      ∙ ap (cons_char b'|') (read_bars-double_bars s t qs n))
  | inr plain ↦
      rw plain (read_bars-plain c _ plain q ∙ ap (cons_char c) (read_bars-double_bars s t qs n))
]

pub quoted_symbol-read :
    (s t : Bytes)
    → All IsQuotable s
    → Delimits t
    → read_quoted_symbol (double_bars s ++ b'|' ∷ t) ≡ (symbol s, t)
unfolding read_quoted_symbol
quoted_symbol-read s t q e = rw (read_bars-double_bars s t q (Delimits-NoBar t e)) refl
