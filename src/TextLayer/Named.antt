-- ===== src/TextLayer/Named.antt =====
-- The errors of `pagecraft_djvu_text` have a text.
use readflex.Prelude.{ℕ, List, [], ◌∷◌, ℤ, Bool}
use readflex.Exp.{Exp, symbolp}
use readflex.Failure.{Named, Named-bind, Named-reject, unreadable_text, text_too_long}
use readflex.Json.Bounds.{json_string-Named, allocated-Named}
use readflex.Json.{json_string}
use readflex.Page.Named.{page_info-Named}
use readflex.Page.{PageInfo, Pages, page_info}
use readflex.Resource.{after-Named, after_run, adopted}
use readflex.TextLayer.{
  read_expression, expression, word_json, Printed, print_words, print_text, nothing_found, text,
  layer_text,
}
use readflex.Wait.Named.{wait_for-Named}
use readflex.Wait.{Wait, wait_for}
use readflex.Words.Named.{collect_words-Named}
use readflex.Words.{Word, collect_words}

pub expression-Named : (timeout_ms : ℕ) (w : Wait Exp) → Named (expression timeout_ms w)
unfolding expression
expression-Named timeout_ms w =
    Named-bind (wait_for timeout_ms w) _ (wait_for-Named timeout_ms w)
      λ value. Named-bind _ _ (Named-reject (symbolp value) unreadable_text tt) λ _. tt

word_json-Named : (word : Word) → Named (word_json word)
unfolding word_json
word_json-Named word = Named-bind (json_string word.text) _ (json_string-Named word.text) λ _. tt

print_words-Named : (words : List Word) (p : Printed) → Named (print_words words p)
unfolding print_words
print_words-Named [] p = tt
print_words-Named (word ∷ words) p =
    Named-bind _ _ (Named-reject _ text_too_long tt)
      λ _. Named-bind (word_json word) _ (word_json-Named word) λ _. print_words-Named words _

print_text-Named : (info : PageInfo) (words : List Word) → Named (print_text info words)
unfolding print_text
print_text-Named info words =
    Named-bind (print_words words _) _ (print_words-Named words _)
      λ p. Named-bind (json_string p.content) _ (json_string-Named p.content) λ _. tt

pub text-Named :
    (doc : Pages) (polls : ℤ → Wait Exp) (has_memory : Bool) (page : ℤ)
    → Named (text doc polls has_memory page).result
unfolding text layer_text after_run adopted read_expression
text-Named doc polls has_memory page =
    after-Named (page_info doc page) _ (page_info-Named doc page) λ info.
      after-Named (expression doc.timeout_ms (polls page)) _
        (expression-Named doc.timeout_ms (polls page))
        λ value.
          Named-bind (collect_words value info nothing_found 0) _
            (collect_words-Named value info nothing_found 0)
            λ found.
              Named-bind (print_text info found.words) _ (print_text-Named info found.words)
                λ json. allocated-Named has_memory json
