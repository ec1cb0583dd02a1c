-- ===== src/TextLayer.antt =====
-- `expression` and the body of `pagecraft_djvu_text` of pagecraft_djvu.cpp: the text of a page as JSON.
-- `miniexp_dummy`, the answer while the decoder is still at work, is a poll with no answer.
pub mod Joined
pub mod Returns
pub mod Named
mod Tests
use readflex.Prelude.{
  ℕ, zero, suc, ◌+◌, ◌≤◌, Bool, true, false, Option, none, some, List, [], ◌∷◌, ◌++◌, Bytes, codes,
  length, ltb, pos_part, if◌then◌else◌, ℤ,
}
use readflex.Exp.{Exp, nil, number, symbol, dummy, symbolp}
use readflex.Failure.{Result, ok, err, ◌>>=◌, ◌>>◌, reject, unreadable_text, text_too_long}
use readflex.Json.{max_text_bytes, json_string, allocated, to_string}
use readflex.Page.{PageInfo, Pages, page_info, oriented_size}
use readflex.Resource.{Resource, Run, Event, acquire, after, after_run, adopted, expression_1}
use readflex.Wait.{Wait, wait_for, answered, is_empty}
use readflex.Words.{Word, Found, collect_words}

unfoldable pub expression : ℕ → Wait Exp → Result Exp
expression timeout_ms w = do
  value ← wait_for timeout_ms w
  reject (symbolp value) unreadable_text
  ok value

-- What a read takes: the decoder protects its answer, if `keeps` holds of it.
unfoldable pub taken : Resource → (Exp → Bool) → Option Exp → List Event
taken r keeps none = []
taken r keeps (some value) = if keeps value then acquire r ∷ [] else []

-- `expression` with what it takes: the answer is protected before the wait looks at the messages.
unfoldable pub read_expression : Resource → (Exp → Bool) → ℕ → Wait Exp → Run Exp
unfolding taken
read_expression r keeps timeout_ms w = record {
  result = expression timeout_ms w;
  events = taken r keeps (answered timeout_ms w);
}

-- What `miniexp_protect` keeps: pairs and objects, of which strings are some.
unfoldable pub is_kept : Exp → Bool
is_kept nil = false
is_kept (number n) = false
is_kept (symbol s) = false
is_kept dummy = false
is_kept _ = true

-- The object printed for one word.
unfoldable pub word_json : Word → Result Bytes
word_json word = do
  text ← json_string word.text
  ok (
      codes "{\"text\":"
      ++ text
      ++ codes ",\"x\":"
      ++ to_string word.at.x
      ++ codes ",\"y\":"
      ++ to_string word.at.y
      ++ codes ",\"width\":"
      ++ to_string word.at.width
      ++ codes ",\"height\":"
      ++ to_string word.at.height
      ++ codes "}")

-- The two strings that the loop over the words builds.
pub record Printed : Type 0 where
  pub result : Bytes
  pub content : Bytes

-- `separator` unless nothing has been put into `content` yet.
abbrev pub separated : Bytes → Bytes → Bytes → Bytes
separated content out separator = if is_empty content then out else out ++ separator

unfoldable pub print_words : List Word → Printed → Result Printed
print_words [] p = ok p
print_words (word ∷ words) p = do
  let result = separated p.content p.result (codes ",")
  let content = separated p.content p.content (codes " ") ++ word.text
  reject (ltb max_text_bytes (length content)) text_too_long
  object ← word_json word
  print_words words (record { result = result ++ object; content = content })

unfoldable pub text_head : PageInfo → Bytes
text_head info =
    codes "{\"width\":"
    ++ to_string (pos_part (oriented_size info).0)
    ++ codes ",\"height\":"
    ++ to_string (pos_part (oriented_size info).1)
    ++ codes ",\"words\":["

unfoldable pub print_text : PageInfo → List Word → Result Bytes
print_text info words = do
  p ← print_words words (record { result = text_head info; content = [] })
  text ← json_string p.content
  ok (p.result ++ codes "],\"text\":" ++ text ++ codes "}")

abbrev pub nothing_found : Found
nothing_found = record { words = []; visited = 0; bytes = 0 }

-- What is done with the page's text layer.
unfoldable pub layer_text : PageInfo → Bool → Exp → Result Bytes
layer_text info has_memory value = do
  found ← collect_words value info nothing_found 0
  json ← print_text info found.words
  allocated has_memory json

-- The expression is released at the end of the function. `text_polls` is what
-- `ddjvu_document_get_pagetext(document, page, "word")` answers.
unfoldable pub text : Pages → (ℤ → Wait Exp) → Bool → ℤ → Run Bytes
text doc text_polls has_memory page = after (page_info doc page) λ info.
    after_run (read_expression expression_1 is_kept doc.timeout_ms (text_polls page)) λ value.
      adopted expression_1 (record { result = layer_text info has_memory value; events = [] })
