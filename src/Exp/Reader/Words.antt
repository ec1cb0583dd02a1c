-- ===== src/Exp/Reader/Words.antt =====
-- Words: what `read_word` takes, and what ends it.
use readflex.Exp.Number.{Double}
use readflex.Exp.Reader.{ends_word, read_word, word_value, read_symbol_or_number}
use readflex.Prelude.{
  ℕ, ◌<◌, ◌≡◌, refl, arith, Option, [], ◌∷◌, ◌++◌, All, Bytes, length, true, false, ◌==◌, ◌||◌,
}

abbrev pub InWord : ℕ → Type 0
InWord c = ends_word c ≡ false

-- What may stand behind a word.
abbrev pub Ends : Bytes → Type 0
Ends [] = Unit
Ends (c ∷ s) = ends_word c ≡ true

-- What the printer puts behind an element of a list.
abbrev pub Delimits : Bytes → Type 0
Delimits [] = Unit
Delimits (c ∷ s) = (c == b' ' || c == b')') ≡ true

pub Delimits-Ends : (t : Bytes) → Delimits t → Ends t
unfolding ends_word
Delimits-Ends [] e = tt
Delimits-Ends (c ∷ t) e = ground arith

read_word-append : (w t : Bytes) → All InWord w → Ends t → read_word (w ++ t) ≡ (w, t)
unfolding read_word
read_word-append [] [] h e = refl
read_word-append [] (c ∷ t) h e = rw e refl
read_word-append (c ∷ w) t (h, hs) e = rw (h, read_word-append w t hs e) refl

-- A word that is behind nothing else is read as what it stands for.
pub read_word_value :
    (strtod : Bytes → Option Double) (w t : Bytes)
    → All InWord w
    → 0 < length w
    → Ends t
    → read_symbol_or_number strtod (w ++ t) ≡ (word_value strtod w, t)
unfolding read_symbol_or_number
read_word_value strtod [] t h l e = absurd (omega arith)
read_word_value strtod (c ∷ w) t h l e = rw (read_word-append (c ∷ w) t h e) refl
