-- ===== src/Words.antt =====
-- `collect_words` of pagecraft_djvu.cpp: the words of a page's text layer, with their rectangles.
-- `page_info` has refused sizes that are not positive, so that the sides of a page are numbers here.
pub mod Place
pub mod Bounds
pub mod Layer
pub mod Returns
pub mod Named
pub mod Tests
use readflex.Prelude.{
  ℕ, zero, suc, ◌+◌, ◌-◌, ◌%◌, ◌≤◌, Bool, true, false, ◌&&◌, ◌||◌, List, [], ◌∷◌, ◌++◌, Bytes,
  length, ltb, leb, ◌==◌, if◌then◌else◌, ℤ, pos, pos_part, ltb_ℤ,
}
use readflex.Container.{max_nodes}
use readflex.Exp.{Exp, nil, cons, number, symbol, string, object, symbolp, numberp, nth, to_int}
use readflex.Failure.{
  Result, ok, err, ◌>>=◌, ◌>>◌, reject, text_structure, text_nodes, text_too_long,
}
use readflex.Json.{max_text_bytes}
use readflex.Page.{PageInfo}

pub record Rect : Type 0 where
  pub x : ℕ
  pub y : ℕ
  pub width : ℕ
  pub height : ℕ

pub record Word : Type 0 where
  pub text : Bytes
  pub at : Rect

-- The sides of the page as the text layer measures it, before the rotation.
abbrev pub raw_width : PageInfo → ℕ
raw_width info = if info.rotation % 2 == 1 then pos_part info.height else pos_part info.width

abbrev pub raw_height : PageInfo → ℕ
raw_height info = if info.rotation % 2 == 1 then pos_part info.width else pos_part info.height

-- `std::clamp(v, lo, hi)`; every call has `lo <= hi`.
unfoldable pub clamp : ℤ → ℕ → ℕ → ℕ
clamp v lo hi = if ltb_ℤ v (pos lo) then lo else if ltb_ℤ (pos hi) v then hi else pos_part v

-- The rectangle with the origin at the top left, cut to the page. The truncated difference is
-- `std::max(0, ...)`.
unfoldable pub cut : ℕ → ℕ → ℤ → ℤ → ℤ → ℤ → Rect
cut w h x1 y1 x2 y2 = record {
  x = clamp x1 0 w;
  y = h - clamp y2 0 h;
  width = clamp x2 (clamp x1 0 w) w - clamp x1 0 w;
  height = clamp y2 0 h - clamp y1 0 h;
}

-- `switch (info.rotation & 3)`, on a page of `w` by `h` before the rotation.
unfoldable pub rotate : ℕ → ℕ → ℕ → Rect → Rect
rotate w h quarter r =
    if quarter == 1
    then record { x = r.y; y = w - r.x - r.width; width = r.height; height = r.width }
    else if quarter == 2
    then record r { x = w - r.x - r.width; y = h - r.y - r.height }
    else if quarter == 3
    then record { x = h - r.y - r.height; y = r.x; width = r.height; height = r.width }
    else r

unfoldable pub place : PageInfo → ℤ → ℤ → ℤ → ℤ → Rect
place info x1 y1 x2 y2 =
    rotate (raw_width info) (raw_height info) (info.rotation % 4)
      (cut (raw_width info) (raw_height info) x1 y1 x2 y2)

-- The variables that the recursion shares by reference.
pub record Found : Type 0 where
  pub words : List Word
  pub visited : ℕ
  pub bytes : ℕ

-- `if (++visited > max_nodes) throw`.
unfoldable pub visit : Found → Result Found
visit found = do
  reject (leb max_nodes found.visited) text_nodes
  ok (record found { visited = found.visited + 1 })

-- The same at the head of `collect_words`, with the limit on the depth.
unfoldable pub enter : Found → ℕ → Result Found
enter found depth = do
  reject (leb max_nodes found.visited || ltb 64 depth) text_structure
  ok (record found { visited = found.visited + 1 })

abbrev pub has_rectangle : Exp → Bool
has_rectangle node =
    numberp (nth 1 node) && numberp (nth 2 node) && numberp (nth 3 node) && numberp (nth 4 node)

abbrev pub place_of : PageInfo → Exp → Rect
place_of info node =
    place info (to_int (nth 1 node)) (to_int (nth 2 node)) (to_int (nth 3 node))
      (to_int (nth 4 node))

-- The words after one more, which is kept only if it is not empty and has a visible rectangle.
abbrev pub keep_word : List Word → Bytes → Rect → List Word
keep_word words text at =
    if ltb 0 at.width && ltb 0 at.height && ltb 0 (length text)
    then words ++ record { text = text; at = at } ∷ []
    else words

-- What the loop does with a text below `node`.
unfoldable pub add_word : PageInfo → Exp → Bytes → Found → Result Found
add_word info node text found =
    if has_rectangle node
    then reject (ltb (max_text_bytes - found.bytes) (length text)) text_too_long
      >> ok (record found {
        bytes = found.bytes + length text;
        words = keep_word found.words text (place_of info node);
      })
    else ok found

-- `collect_children skip list node` is the loop over `children`, once `skip` more of the node's
-- elements have been passed over: `children` is what is left behind the kind and the four numbers.
unfoldable mutual
  pub collect_words : Exp → PageInfo → Found → ℕ → Result Found
  collect_words (cons kind args) info found depth = enter found depth >>= λ found'.
      elim (symbolp kind) [
        | true ↦ collect_children 4 args (cons kind args) info found' depth
        | false ↦ ok found'
      ]
  collect_words _ info found depth = enter found depth

  pub collect_children : ℕ → Exp → Exp → PageInfo → Found → ℕ → Result Found
  collect_children (suc skip) (cons _ rest) node info found depth =
      collect_children skip rest node info found depth
  collect_children zero (cons (string text) rest) node info found depth = visit found >>= λ f.
      add_word info node text f >>= λ f'. collect_children zero rest node info f' depth
  collect_children zero (cons child rest) node info found depth = visit found >>= λ f.
      collect_words child info f (depth + 1) >>= λ f'. collect_children zero rest node info f' depth
  collect_children _ _ node info found depth = ok found
