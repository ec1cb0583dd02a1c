-- ===== src/Words/Bounds.antt =====
-- What `collect_words` keeps: its limits, and the words that it has found.
use readflex.Prelude.{
  ℕ, zero, suc, ◌+◌, ◌≤◌, ◌<◌, ◌≡◌, arith, List, [], ◌∷◌, ◌++◌, All, length, pos_part, true, false,
  Bytes,
}
use readflex.Container.{max_nodes}
use readflex.Exp.{Exp, nil, cons, number, symbol, string, object, dummy, symbolp, nth, to_int}
use readflex.Failure.{Result, ok, ◌>>=◌, Ensures, Ensures-bind, Ensures-ok}
use readflex.Json.{max_text_bytes}
use readflex.Page.{PageInfo}
use readflex.Words.Place.{LiesIn, place-LiesIn}
use readflex.Words.{
  Rect, Word, Found, visit, enter, place_of, keep_word, add_word, collect_words, collect_children,
}

-- A word with a text and a visible rectangle on the page as it is shown.
pub record IsWord (info : PageInfo) (w : Word) : Type 0 where
  pub on_page : LiesIn (pos_part info.width) (pos_part info.height) w.at
  pub wide : 0 < w.at.width
  pub high : 0 < w.at.height
  pub nonempty : 0 < length w.text

abbrev pub text_size : List Word → ℕ
text_size [] = 0
text_size (w ∷ ws) = length w.text + text_size ws

-- The second field keeps `max_text_bytes - bytes` from wrapping.
pub record IsBounded (info : PageInfo) (found : Found) : Type 0 where
  pub few_nodes : found.visited ≤ max_nodes
  pub few_bytes : found.bytes ≤ max_text_bytes
  pub counted : text_size found.words ≤ found.bytes
  pub words : All (IsWord info) found.words

abbrev Keeps : PageInfo → Result Found → Type 0
Keeps info = Ensures (IsBounded info)

module _ (info : PageInfo) where
  All-concat :
      (ws : List Word) (w : Word)
      → All (IsWord info) ws
      → IsWord info w
      → All (IsWord info) (ws ++ w ∷ [])
  All-concat [] w h k = (k, tt)
  All-concat (v ∷ ws) w h k = (h.0, All-concat ws w h.1 k)

  text_size-concat :
      (ws : List Word) (w : Word) → text_size (ws ++ w ∷ []) ≡ text_size ws + length w.text
  text_size-concat [] w = omega arith
  text_size-concat (v ∷ ws) w = omega (arith, text_size-concat ws w)

  keep_word-IsWord :
      (ws : List Word) (text : Bytes) (at : Rect)
      → LiesIn (pos_part info.width) (pos_part info.height) at
      → All (IsWord info) ws
      → All (IsWord info) (keep_word ws text at)
        × (text_size (keep_word ws text at) ≤ text_size ws + length text)
  keep_word-IsWord ws text at on h =
      let w : Word = record { text = text; at = at } in
      ground (arith, All-concat ws w h, text_size-concat ws w)

  enter-IsBounded :
      (found : Found) (depth : ℕ) → IsBounded info found → Keeps info (enter found depth)
  unfolding enter
  enter-IsBounded found depth b = ground arith

  visit-IsBounded : (found : Found) → IsBounded info found → Keeps info (visit found)
  unfolding visit
  visit-IsBounded found b = ground arith

  add_word-IsBounded :
      (node : Exp) (text : Bytes) (found : Found)
      → IsBounded info found
      → Keeps info (add_word info node text found)
  unfolding add_word
  add_word-IsBounded node text found b = ground (
    arith,
    keep_word-IsWord found.words text (place_of info node)
        (place-LiesIn info (to_int (nth 1 node)) (to_int (nth 2 node)) (to_int (nth 3 node))
          (to_int (nth 4 node)))
        b.words,
  )

bind_bounded :
    (info : PageInfo) (m : Result Found) (f : Found → Result Found)
    → Keeps info m
    → ((found : Found) → IsBounded info found → Keeps info (f found))
    → Keeps info (m >>= f)
bind_bounded info = Ensures-bind (IsBounded info) (IsBounded info)

mutual
  unfolding collect_words collect_children

  collect_words-Keeps :
      (node : Exp) (info : PageInfo) (found : Found) (depth : ℕ)
      → IsBounded info found
      → Keeps info (collect_words node info found depth)
  collect_words-Keeps (cons kind args) info found depth b =
      bind_bounded info (enter found depth) _ (enter-IsBounded info found depth b) λ f k.
        elim (symbolp kind)
          as (λ s. Keeps info (elim s [
            | true ↦ collect_children 4 args (cons kind args) info f depth
            | false ↦ ok f
          ])) [ true ↦ collect_children-Keeps 4 args (cons kind args) info f depth k | false ↦ k ]
  collect_words-Keeps nil info found depth b = enter-IsBounded info found depth b
  collect_words-Keeps (number n) info found depth b = enter-IsBounded info found depth b
  collect_words-Keeps (symbol s) info found depth b = enter-IsBounded info found depth b
  collect_words-Keeps (string s) info found depth b = enter-IsBounded info found depth b
  collect_words-Keeps object info found depth b = enter-IsBounded info found depth b
  collect_words-Keeps dummy info found depth b = enter-IsBounded info found depth b

  collect_children-Keeps :
      (skip : ℕ) (list node : Exp) (info : PageInfo) (found : Found) (depth : ℕ)
      → IsBounded info found
      → Keeps info (collect_children skip list node info found depth)
  collect_children-Keeps (suc skip) (cons _ rest) node info found depth b =
      collect_children-Keeps skip rest node info found depth b
  collect_children-Keeps zero (cons (string text) rest) node info found depth b =
      bind_bounded info (visit found) _ (visit-IsBounded info found b) λ f k.
        bind_bounded info (add_word info node text f) _ (add_word-IsBounded info node text f k)
          λ f' k'. collect_children-Keeps zero rest node info f' depth k'
  collect_children-Keeps zero (cons child rest) node info found depth b =
      bind_bounded info (visit found) _ (visit-IsBounded info found b) λ f k.
        bind_bounded info (collect_words child info f (depth + 1)) _
          (collect_words-Keeps child info f (depth + 1) k)
          λ f' k'. collect_children-Keeps zero rest node info f' depth k'
  collect_children-Keeps skip list node info found depth b = b

-- The words of a text layer: every one has a text and a visible rectangle on the page as it is
-- shown, the nodes visited and the bytes of text stay within their limits, and the texts of the
-- words have no more bytes than were counted.
pub collect_words-IsBounded :
    (node : Exp) (info : PageInfo) (found : Found) (depth : ℕ) {after : Found}
    → IsBounded info found
    → collect_words node info found depth ≡ ok after
    → IsBounded info after
collect_words-IsBounded node info found depth b e =
    Ensures-ok (IsBounded info) e (collect_words-Keeps node info found depth b)
