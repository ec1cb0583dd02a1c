-- ===== src/Words/Layer.antt =====
-- The words of a text layer with no limits and no state, and `collect_words` against them.
use readflex.Prelude.{
  ℕ, zero, suc, ◌+◌, ◌≡◌, subst, sym, ap, ◌∙◌, arith, List, [], ◌++◌, append_assoc, append-nil,
  true, false, Bytes, if◌then◌else◌,
}
use readflex.Exp.{Exp, nil, cons, number, symbol, string, object, dummy, symbolp}
use readflex.Failure.{Result, ok, ◌>>=◌, Ensures, Ensures-bind, Ensures-ok}
use readflex.Page.{PageInfo}
use readflex.Words.{
  Word, Found, visit, enter, has_rectangle, place_of, keep_word, add_word, collect_words,
  collect_children,
}

-- One text below `node`: a word, unless it is empty or its rectangle is.
unfoldable pub word_at : PageInfo → Exp → Bytes → List Word
word_at info node text = if has_rectangle node then keep_word [] text (place_of info node) else []

-- The texts in the order in which they stand, those of the zones within a zone in their place.
unfoldable mutual
  pub words_of : Exp → PageInfo → List Word
  words_of (cons kind args) info = elim (symbolp kind) [
    | true ↦ words_below 4 args (cons kind args) info
    | false ↦ []
  ]
  words_of _ info = []

  pub words_below : ℕ → Exp → Exp → PageInfo → List Word
  words_below (suc skip) (cons _ rest) node info = words_below skip rest node info
  words_below zero (cons (string text) rest) node info =
      word_at info node text ++ words_below zero rest node info
  words_below zero (cons child rest) node info =
      words_of child info ++ words_below zero rest node info
  words_below _ _ node info = []

-- A step that adds these words.
abbrev Adds : Found → List Word → Result Found → Type 0
Adds found ws = Ensures λ after. after.words ≡ found.words ++ ws

module _ (info : PageInfo) where
  visit-Adds : (found : Found) → Adds found [] (visit found)
  unfolding visit
  visit-Adds found = ground (arith, append-nil found.words)

  enter-Adds : (found : Found) (depth : ℕ) → Adds found [] (enter found depth)
  unfolding enter
  enter-Adds found depth = ground (arith, append-nil found.words)

  add_word-Adds :
      (node : Exp) (text : Bytes) (found : Found)
      → Adds found (word_at info node text) (add_word info node text found)
  unfolding add_word word_at
  add_word-Adds node text found = ground (arith, append-nil found.words)

Adds-bind :
    (found : Found) (us vs : List Word) (m : Result Found) (f : Found → Result Found)
    → Adds found us m
    → ((mid : Found) → Adds mid vs (f mid))
    → Adds found (us ++ vs) (m >>= f)
Adds-bind found us vs m f h k =
    Ensures-bind (λ mid. mid.words ≡ found.words ++ us) _ m f h
      λ mid e.
        subst (λ ws. Ensures (λ (after : Found). after.words ≡ ws) (f mid))
          (ap (λ ws. ws ++ vs) e ∙ append_assoc found.words us vs) (k mid)

mutual
  unfolding collect_words collect_children words_of words_below

  collect_words-Adds :
      (node : Exp) (info : PageInfo) (found : Found) (depth : ℕ)
      → Adds found (words_of node info) (collect_words node info found depth)
  collect_words-Adds (cons kind args) info found depth =
      Adds-bind found [] _ (enter found depth) _ (enter-Adds info found depth) λ f.
        elim (symbolp kind)
          as (λ s.
            Adds f (elim s [ true ↦ words_below 4 args (cons kind args) info | false ↦ [] ])
              (elim s [
                | true ↦ collect_children 4 args (cons kind args) info f depth
                | false ↦ ok f
              ])) [
                | true ↦ collect_children-Adds 4 args (cons kind args) info f depth
                | false ↦ sym (append-nil f.words)
              ]
  collect_words-Adds nil info found depth = enter-Adds info found depth
  collect_words-Adds (number n) info found depth = enter-Adds info found depth
  collect_words-Adds (symbol s) info found depth = enter-Adds info found depth
  collect_words-Adds (string s) info found depth = enter-Adds info found depth
  collect_words-Adds object info found depth = enter-Adds info found depth
  collect_words-Adds dummy info found depth = enter-Adds info found depth

  collect_children-Adds :
      (skip : ℕ) (list node : Exp) (info : PageInfo) (found : Found) (depth : ℕ)
      → Adds found
          (words_below skip list node info)
          (collect_children skip list node info found depth)
  collect_children-Adds (suc skip) (cons _ rest) node info found depth =
      collect_children-Adds skip rest node info found depth
  collect_children-Adds zero (cons (string text) rest) node info found depth =
      Adds-bind found [] _ (visit found) _ (visit-Adds info found) λ f.
        Adds-bind f (word_at info node text) _ (add_word info node text f) _
          (add_word-Adds info node text f) λ f'. collect_children-Adds zero rest node info f' depth
  collect_children-Adds zero (cons child rest) node info found depth =
      Adds-bind found [] _ (visit found) _ (visit-Adds info found) λ f.
        Adds-bind f (words_of child info) _ (collect_words child info f (depth + 1)) _
          (collect_words-Adds child info f (depth + 1))
          λ f'. collect_children-Adds zero rest node info f' depth
  collect_children-Adds skip list node info found depth = sym (append-nil found.words)

-- Whenever `collect_words` returns, it has added exactly the words of the text layer, in order: the
-- limits can make it fail, and never make it drop or change a word.
pub collect_words-words_of :
    (node : Exp) (info : PageInfo) (found : Found) (depth : ℕ) {after : Found}
    → collect_words node info found depth ≡ ok after
    → after.words ≡ found.words ++ words_of node info
collect_words-words_of node info found depth e =
    Ensures-ok (λ after. after.words ≡ found.words ++ words_of node info) e
      (collect_words-Adds node info found depth)
