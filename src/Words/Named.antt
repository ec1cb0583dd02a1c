-- ===== src/Words/Named.antt =====
-- The errors of `collect_words` have a text.
use readflex.Prelude.{ℕ, zero, suc, ◌+◌, arith, Bool, true, false, Bytes}
use readflex.Exp.{Exp, nil, cons, number, symbol, string, object, dummy, symbolp}
use readflex.Failure.{Result, ok, Named, Named-bind}
use readflex.Page.{PageInfo}
use readflex.Words.{Found, visit, enter, add_word, collect_words, collect_children}

visit-Named : (found : Found) → Named (visit found)
unfolding visit
visit-Named found = ground arith

enter-Named : (found : Found) (depth : ℕ) → Named (enter found depth)
unfolding enter
enter-Named found depth = ground arith

add_word-Named :
    (info : PageInfo) (node : Exp) (text : Bytes) (found : Found)
    → Named (add_word info node text found)
unfolding add_word
add_word-Named info node text found = ground arith

cases-Named :
    (s : Bool) (m : Result Found) (found : Found)
    → Named m
    → Named (elim s [ true ↦ m | false ↦ ok found ])
cases-Named true m found h = h
cases-Named false m found h = tt

mutual
  unfolding collect_words collect_children

  words-Named :
      (node : Exp) (info : PageInfo) (found : Found) (depth : ℕ)
      → Named (collect_words node info found depth)
  words-Named (cons kind args) info found depth =
      Named-bind (enter found depth) _ (enter-Named found depth) λ f.
        cases-Named (symbolp kind) (collect_children 4 args (cons kind args) info f depth) f
          (children-Named 4 args (cons kind args) info f depth)
  words-Named nil info found depth = enter-Named found depth
  words-Named (number n) info found depth = enter-Named found depth
  words-Named (symbol s) info found depth = enter-Named found depth
  words-Named (string s) info found depth = enter-Named found depth
  words-Named object info found depth = enter-Named found depth
  words-Named dummy info found depth = enter-Named found depth

  children-Named :
      (skip : ℕ) (list node : Exp) (info : PageInfo) (found : Found) (depth : ℕ)
      → Named (collect_children skip list node info found depth)
  children-Named (suc skip) (cons _ rest) node info found depth =
      children-Named skip rest node info found depth
  children-Named zero (cons (string text) rest) node info found depth =
      Named-bind (visit found) _ (visit-Named found) λ f.
        Named-bind (add_word info node text f) _ (add_word-Named info node text f)
          λ f'. children-Named zero rest node info f' depth
  children-Named zero (cons child rest) node info found depth =
      Named-bind (visit found) _ (visit-Named found) λ f.
        Named-bind (collect_words child info f (depth + 1)) _ (words-Named child info f (depth + 1))
          λ f'. children-Named zero rest node info f' depth
  children-Named skip list node info found depth = tt

pub collect_words-Named :
    (node : Exp) (info : PageInfo) (found : Found) (depth : ℕ)
    → Named (collect_words node info found depth)
collect_words-Named = words-Named
