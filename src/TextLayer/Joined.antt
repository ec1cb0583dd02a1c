-- ===== src/TextLayer/Joined.antt =====
-- The printed text of a page, said by joining.
use readflex.Prelude.{
  ◌+◌, ◌<◌, ◌≡◌, refl, sym, ap, ◌∙◌, arith, List, [], ◌∷◌, ◌++◌, append_assoc, append-nil, All,
  Bytes, codes, length, length-append, ltb,
}
use readflex.Failure.{ok, >>=-eq-ok, reject->>, ok-injective, text_too_long}
use readflex.Json.{max_text_bytes, json_string}
use readflex.Page.{PageInfo}
use readflex.TextLayer.{word_json, Printed, separated, print_words, text_head, print_text}
use readflex.Words.{Word}

-- The pieces in order, with the separator between each two.
pub join : Bytes → List Bytes → Bytes
join separator [] = []
join separator (x ∷ []) = x
join separator (x ∷ y ∷ xs) = x ++ (separator ++ join separator (y ∷ xs))

-- Each further piece behind its separator.
tail_join : Bytes → List Bytes → Bytes
tail_join separator [] = []
tail_join separator (x ∷ xs) = separator ++ (x ++ tail_join separator xs)

join-cons : (s x : Bytes) (xs : List Bytes) → join s (x ∷ xs) ≡ x ++ tail_join s xs
unfolding join tail_join
join-cons s x [] = sym (append-nil x)
join-cons s x (y ∷ xs) = ap (λ r. x ++ (s ++ r)) (join-cons s y xs)

-- The objects printed for the words, in order.
pub data Objects : List Word → List Bytes → Type 0 where
  none : Objects [] []
  one :
      {w : Word} {ws : List Word} {o : Bytes} {os : List Bytes}
      → word_json w ≡ ok o
      → Objects ws os
      → Objects (w ∷ ws) (o ∷ os)

abbrev pub texts : List Word → List Bytes
texts [] = []
texts (w ∷ ws) = w.text ∷ texts ws

abbrev pub Nonempty : Word → Type 0
Nonempty w = 0 < length w.text

separated-started :
    (content out separator : Bytes)
    → 0 < length content
    → separated content out separator ≡ out ++ separator
separated-started [] out separator h = absurd (omega arith)
separated-started (c ∷ cs) out separator h = refl

-- One round: the object of the word and the strings after it.
print_words-step :
    (w : Word) (words : List Word) (p : Printed) {q : Printed}
    → print_words (w ∷ words) p ≡ ok q
    → (o : Bytes) × (word_json w ≡ ok o)
      × (print_words words (record {
        result = separated p.content p.result (codes ",") ++ o;
        content = separated p.content p.content (codes " ") ++ w.text;
      })
          ≡ ok q)
unfolding print_words
print_words-step w words p e =
    let content = separated p.content p.content (codes " ") ++ w.text in
    >>=-eq-ok (word_json w) _ (reject->> (ltb max_text_bytes (length content)) text_too_long _ e).1

-- From a content that is not empty on, every word is separated.
print_words_more :
    (words : List Word) (p : Printed) {q : Printed}
    → 0 < length p.content
    → print_words words p ≡ ok q
    → (os : List Bytes) × Objects words os
      × (q.result ≡ p.result ++ tail_join (codes ",") os)
      × (q.content ≡ p.content ++ tail_join (codes " ") (texts words))
unfolding print_words tail_join
print_words_more [] p started e =
    ([], none, ground (arith, append-nil p.result), ground (arith, append-nil p.content))
print_words_more (w ∷ words) p started e =
    let (o, printed, rest) = print_words-step w words p e in
    let (os, objects, r, c) = print_words_more words _ (omega (arith, longer)) rest in
    (
      o ∷ os,
      one printed objects,
      r ∙ rw (separated-started p.content p.result (codes ",") started) (simp append_assoc),
      c ∙ rw (separated-started p.content p.content (codes " ") started) (simp append_assoc),
    )
  where
    longer :
        length (separated p.content p.content (codes " ") ++ w.text)
        ≡ length p.content + 1 + length w.text
    longer = rw (separated-started p.content p.content (codes " ") started) (
        omega (
          arith,
          length-append (p.content ++ codes " ") w.text,
          length-append p.content (codes " "),
        ))

-- The loop over words with texts: the objects are joined by commas, and the texts by single spaces.
print_words-join :
    (words : List Word) (head : Bytes) {q : Printed}
    → All Nonempty words
    → print_words words (record { result = head; content = [] }) ≡ ok q
    → (os : List Bytes) × Objects words os
      × (q.result ≡ head ++ join (codes ",") os)
      × (q.content ≡ join (codes " ") (texts words))
unfolding print_words join
print_words-join [] head ne e = ([], none, ground (arith, append-nil head), ground arith)
print_words-join (w ∷ words) head ne e =
    let (o, printed, rest) = print_words-step w words (record { result = head; content = [] }) e in
    let (os, objects, r, c) = print_words_more words _ ne.0 rest in
    (
      o ∷ os,
      one printed objects,
      r ∙ append_assoc head o _ ∙ ap (λ t. head ++ t) (sym (join-cons (codes ",") o os)),
      c ∙ sym (join-cons (codes " ") w.text (texts words)),
    )

-- The text of a page with words that are not empty is one JSON object: the size of the page, the
-- objects of the words joined by commas, and the words joined by single spaces.
pub print_text-join :
    (info : PageInfo) (words : List Word) {json : Bytes}
    → All Nonempty words
    → print_text info words ≡ ok json
    → (os : List Bytes) × (text : Bytes) × Objects words os
      × (json_string (join (codes " ") (texts words)) ≡ ok text)
      × (json ≡ (text_head info ++ join (codes ",") os) ++ codes "],\"text\":" ++ text ++ codes "}")
unfolding print_text
print_text-join info words ne e =
    let (p, looped, e1) = >>=-eq-ok (print_words words _) _ e in
    let (os, objects, r, c) = print_words-join words (text_head info) ne looped in
    let (text, quoted, e2) = >>=-eq-ok (json_string p.content) _ e1 in
    (
      os,
      text,
      objects,
      rw c at quoted,
      sym (ok-injective e2) ∙ ap (λ out. out ++ codes "],\"text\":" ++ text ++ codes "}") r,
    )
