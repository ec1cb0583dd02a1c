-- ===== src/TextLayer/Returns.antt =====
-- What `pagecraft_djvu_text` returns, from the file's text layer to the JSON.
use readflex.Prelude.{
  ◌*◌, ◌≤◌, ◌≡◌, ◌∙◌, subst, arith, List, [], ◌∷◌, ◌++◌, All, Bool, Bytes, codes, length, ℤ,
}
use readflex.Exp.{Exp}
use readflex.Failure.{ok, >>=-eq-ok}
use readflex.Json.{max_text_bytes, json_string}
use readflex.Json.Bounds.{allocated-ok}
use readflex.Page.{PageInfo, Pages, page_info}
use readflex.TextLayer.Joined.{join, Objects, texts, Nonempty, print_text-join}
use readflex.Resource.{after-ok, after_run, adopted}
use readflex.TextLayer.{
  read_expression, layer_text, expression, text_head, print_text, nothing_found, text,
}
use readflex.Wait.{Wait}
use readflex.Words.Bounds.{IsWord, collect_words-IsBounded}
use readflex.Words.Layer.{words_of, collect_words-words_of}
use readflex.Words.{Word, collect_words}

nonempty : (info : PageInfo) (ws : List Word) → All (IsWord info) ws → All Nonempty ws
nonempty info [] h = tt
nonempty info (w ∷ ws) h = (h.0.nonempty, nonempty info ws h.1)

-- The parts of a returned text: the page, its text layer, the layer's words, and how they are printed.
pub record IsText (doc : Pages) (w : Wait Exp) (page : ℤ) (json : Bytes) : Type 0 where
  pub info : PageInfo
  pub layer : Exp
  pub objects : List Bytes
  pub content : Bytes
  pub is_page : page_info doc page ≡ ok info
  pub is_layer : expression doc.timeout_ms w ≡ ok layer
  pub on_page : All (IsWord info) (words_of layer info)
  pub printed : Objects (words_of layer info) objects
  pub quoted : json_string (join (codes " ") (texts (words_of layer info))) ≡ ok content
  pub is_json :
      json
      ≡ (text_head info ++ join (codes ",") objects) ++ codes "],\"text\":" ++ content ++ codes "}"
  pub bounded : length json ≤ max_text_bytes * 4

-- A text that is returned is that of a page of the document: the words of its text layer, all of
-- them and in order, each with a text and a visible rectangle on the page, joined by commas as
-- objects and by single spaces as the content, in no more bytes than the limit.
pub text-IsText :
    (doc : Pages) (polls : ℤ → Wait Exp) (has_memory : Bool) (page : ℤ) {json : Bytes}
    → (text doc polls has_memory page).result ≡ ok json
    → IsText doc (polls page) page json
unfolding text layer_text after_run adopted read_expression
text-IsText doc polls has_memory page e =
    let (info, paged, e1) = after-ok (page_info doc page) _ e in
    let (layer, layered, e2) = after-ok (expression doc.timeout_ms (polls page)) _ e1 in
    let (found, collected, e3) = >>=-eq-ok (collect_words layer info nothing_found 0) _ e2 in
    let (out, printed, e4) = >>=-eq-ok (print_text info found.words) _ e3 in
    let (same, short) = allocated-ok has_memory out e4 in
    let all : found.words ≡ words_of layer info =
      collect_words-words_of layer info nothing_found 0 collected in
    let bounded =
      collect_words-IsBounded layer info nothing_found 0
        (record {
          few_nodes = omega arith;
          few_bytes = omega arith;
          counted = omega arith;
          words = tt;
        })
        collected in
    let on_page = subst (All (IsWord info)) all bounded.words in
    let (objects, content, made, quoted, json) =
      print_text-join info (words_of layer info) (nonempty info _ on_page)
        (subst (λ ws. print_text info ws ≡ ok out) all printed) in
    record {
      info = info;
      layer = layer;
      objects = objects;
      content = content;
      is_page = paged;
      is_layer = layered;
      on_page = on_page;
      printed = made;
      quoted = quoted;
      is_json = same ∙ json;
      bounded = short;
    }
