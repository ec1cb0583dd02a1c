-- ===== src/Words/Returns.antt =====
-- When `collect_words` returns: how many nodes it visits, how much text it counts, how deep it goes.
use readflex.Prelude.{
  ℕ, zero, suc, ◌+◌, ◌≤◌, ◌≡◌, refl, arith, max, true, false, Bytes, length, if◌then◌else◌,
  Bool-cases, inl, inr,
}
use readflex.Container.{max_nodes}
use readflex.Exp.{Exp, nil, cons, number, symbol, string, object, dummy, symbolp}
use readflex.Failure.{Result, ok, ◌>>=◌}
use readflex.Json.{max_text_bytes}
use readflex.Page.{PageInfo}
use readflex.Words.{
  Found, visit, enter, has_rectangle, add_word, collect_words, collect_children, keep_word,
  place_of,
}

-- The bytes that a text below `node` counts.
abbrev counted : Exp → Bytes → ℕ
counted node text = if has_rectangle node then length text else 0

-- The nodes that are visited: a zone is counted by the zone around it and by itself.
unfoldable mutual
  pub nodes_of : Exp → ℕ
  nodes_of (cons kind args) = 1 + elim (symbolp kind) [ true ↦ nodes_below 4 args | false ↦ 0 ]
  nodes_of _ = 1

  pub nodes_below : ℕ → Exp → ℕ
  nodes_below (suc skip) (cons _ rest) = nodes_below skip rest
  nodes_below zero (cons (string text) rest) = 1 + nodes_below zero rest
  nodes_below zero (cons child rest) = 1 + (nodes_of child + nodes_below zero rest)
  nodes_below _ _ = 0

-- The bytes of the texts that have a rectangle.
unfoldable mutual
  pub bytes_of : Exp → ℕ
  bytes_of (cons kind args) = elim (symbolp kind) [
    | true ↦ bytes_below 4 args (cons kind args)
    | false ↦ 0
  ]
  bytes_of _ = 0

  pub bytes_below : ℕ → Exp → Exp → ℕ
  bytes_below (suc skip) (cons _ rest) node = bytes_below skip rest node
  bytes_below zero (cons (string text) rest) node = counted node text + bytes_below zero rest node
  bytes_below zero (cons child rest) node = bytes_of child + bytes_below zero rest node
  bytes_below _ _ node = 0

-- The zones within zones.
unfoldable mutual
  pub depth_of : Exp → ℕ
  depth_of (cons kind args) = elim (symbolp kind) [ true ↦ depth_below 4 args | false ↦ 0 ]
  depth_of _ = 0

  pub depth_below : ℕ → Exp → ℕ
  depth_below (suc skip) (cons _ rest) = depth_below skip rest
  depth_below zero (cons (string text) rest) = depth_below zero rest
  depth_below zero (cons child rest) = max (1 + depth_of child) (depth_below zero rest)
  depth_below _ _ = 0

-- A step that returns, after so many more visits and bytes.
abbrev pub Takes : Found → ℕ → ℕ → Result Found → Type 0
Takes found n b m =
    (after : Found) × (m ≡ ok after)
    × (after.visited ≡ found.visited + n)
    × (after.bytes ≡ found.bytes + b)

-- There is room for so many more.
record HasRoom (found : Found) (n b : ℕ) : Type 0 where
  nodes : found.visited + n ≤ max_nodes
  bytes : found.bytes + b ≤ max_text_bytes

Takes-bind :
    (found : Found) (n b n' b' : ℕ) {all_nodes all_bytes : ℕ} (m : Result Found)
    (f : Found → Result Found)
    → HasRoom found all_nodes all_bytes
    → n + n' ≡ all_nodes
    → b + b' ≡ all_bytes
    → Takes found n b m
    → ((mid : Found) → HasRoom mid n' b' → Takes mid n' b' (f mid))
    → Takes found all_nodes all_bytes (m >>= f)
Takes-bind found n b n' b' m f room hn hb (mid, e, v, c) k =
    let (after, e', v', c') = k mid (record { nodes = omega arith; bytes = omega arith }) in
    (after, rw e e', omega arith, omega arith)

enter-Takes :
    (found : Found) (depth n b : ℕ)
    → HasRoom found (1 + n) b
    → depth ≤ 64
    → Takes found 1 0 (enter found depth)
unfolding enter
enter-Takes found depth n b room shallow =
    (record found { visited = found.visited + 1 }, ground arith, refl, omega arith)

visit-Takes : (found : Found) (n b : ℕ) → HasRoom found (1 + n) b → Takes found 1 0 (visit found)
unfolding visit
visit-Takes found n b room =
    (record found { visited = found.visited + 1 }, ground arith, refl, omega arith)

add_word-Takes :
    (info : PageInfo) (node : Exp) (text : Bytes) (found : Found) (n b : ℕ)
    → HasRoom found n (counted node text + b)
    → Takes found 0 (counted node text) (add_word info node text found)
unfolding add_word
add_word-Takes info node text found n b room = elim (Bool-cases (has_rectangle node)) [
  | inl placed ↦ (
    record found {
      bytes = found.bytes + length text;
      words = keep_word found.words text (place_of info node);
    },
    ground arith,
    omega arith,
    ground arith,
  )
  | inr bare ↦ (found, ground arith, omega arith, ground arith)
]

mutual
  unfolding collect_words collect_children nodes_of nodes_below bytes_of bytes_below depth_of
      depth_below

  node-Takes :
      (node : Exp) (info : PageInfo) (found : Found) (depth : ℕ)
      → HasRoom found (nodes_of node) (bytes_of node)
      → depth + depth_of node ≤ 64
      → Takes found (nodes_of node) (bytes_of node) (collect_words node info found depth)
  node-Takes (cons kind args) info found depth room deep =
      Takes-bind found 1 0 _ _ (enter found depth) _ room refl (omega arith)
        (enter-Takes found depth _ _ room (omega arith))
        λ f k.
          elim (symbolp kind)
              as (λ s.
                HasRoom f (elim s [ true ↦ nodes_below 4 args | false ↦ 0 ])
                  (elim s [ true ↦ bytes_below 4 args (cons kind args) | false ↦ 0 ])
                → depth + elim s [ true ↦ depth_below 4 args | false ↦ 0 ] ≤ 64
                → Takes f (elim s [ true ↦ nodes_below 4 args | false ↦ 0 ])
                    (elim s [ true ↦ bytes_below 4 args (cons kind args) | false ↦ 0 ])
                    (elim s [
                      | true ↦ collect_children 4 args (cons kind args) info f depth
                      | false ↦ ok f
                    ])) [
                      | true ↦ children-Takes 4 args (cons kind args) info f depth
                      | false ↦ λ r d. (f, refl, omega arith, omega arith)
                    ]
            k deep
  node-Takes nil info found depth room deep = enter-Takes found depth 0 0 room (omega arith)
  node-Takes (number n) info found depth room deep = enter-Takes found depth 0 0 room (omega arith)
  node-Takes (symbol s) info found depth room deep = enter-Takes found depth 0 0 room (omega arith)
  node-Takes (string s) info found depth room deep = enter-Takes found depth 0 0 room (omega arith)
  node-Takes object info found depth room deep = enter-Takes found depth 0 0 room (omega arith)
  node-Takes dummy info found depth room deep = enter-Takes found depth 0 0 room (omega arith)

  children-Takes :
      (skip : ℕ) (list node : Exp) (info : PageInfo) (found : Found) (depth : ℕ)
      → HasRoom found (nodes_below skip list) (bytes_below skip list node)
      → depth + depth_below skip list ≤ 64
      → Takes found
          (nodes_below skip list)
          (bytes_below skip list node)
          (collect_children skip list node info found depth)
  children-Takes (suc skip) (cons _ rest) node info found depth room deep =
      children-Takes skip rest node info found depth room deep
  children-Takes zero (cons (string text) rest) node info found depth room deep =
      Takes-bind found 1 0 (nodes_below zero rest) (counted node text + bytes_below zero rest node)
        (visit found) _ room (omega arith) (omega arith) (visit-Takes found _ _ room)
        λ f k.
          Takes-bind f 0 (counted node text) (nodes_below zero rest) (bytes_below zero rest node)
            (add_word info node text f) _ k (omega arith) (omega arith)
            (add_word-Takes info node text f _ _ k)
            λ f' k'. children-Takes zero rest node info f' depth k' deep
  children-Takes zero (cons child rest) node info found depth room deep =
      Takes-bind found 1 0 (nodes_of child + nodes_below zero rest)
        (bytes_of child + bytes_below zero rest node) (visit found) _ room (omega arith)
        (omega arith) (visit-Takes found _ _ room)
        λ f k.
          Takes-bind f (nodes_of child) (bytes_of child) (nodes_below zero rest)
            (bytes_below zero rest node) (collect_words child info f (depth + 1)) _ k refl refl
            (node-Takes child info f (depth + 1)
              (record { nodes = omega (arith, k.nodes); bytes = omega (arith, k.bytes) })
              (omega arith))
            λ f' k'. children-Takes zero rest node info f' depth k' (omega arith)
  children-Takes skip list node info found depth room deep = (found, refl, omega arith, omega arith)

-- `collect_words` returns if the nodes of the text layer, the bytes of its texts and its depth keep to
-- the limits, and has then counted just those nodes and bytes.
pub collect_words-Takes :
    (node : Exp) (info : PageInfo) (found : Found) (depth : ℕ)
    → found.visited + nodes_of node ≤ max_nodes
    → found.bytes + bytes_of node ≤ max_text_bytes
    → depth + depth_of node ≤ 64
    → Takes found (nodes_of node) (bytes_of node) (collect_words node info found depth)
collect_words-Takes node info found depth few short shallow =
    node-Takes node info found depth (record { nodes = few; bytes = short }) shallow
