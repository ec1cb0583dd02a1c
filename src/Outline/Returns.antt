-- ===== src/Outline/Returns.antt =====
-- When `outline_items` returns: its limits on items, levels and bytes are the only ones.
use readflex.Prelude.{
  ℕ, suc, ◌+◌, ◌≤◌, ◌<◌, ◌≡◌, refl, ap, ◌∙◌, arith, max, [], ◌∷◌, ◌++◌, Bytes, codes, length,
  length-append, leb, inl, inr, Bool, true, false, ℤ,
}
use readflex.Container.{max_nodes}
use readflex.Exp.{Exp, nil, cons, string}
use readflex.Failure.{
  Result, ok, ◌>>=◌, ◌>>◌, reject, Ensures, Ensures-ok, Result-cases, outline_size,
}
use readflex.Json.Bounds.{quoted}
use readflex.Json.{max_text_bytes, escape, escape_byte, json_string}
use readflex.Outline.Tree.{
  Entry, Entries, entry, none, more, items_tree, items_count, separator, print_entry, print_list,
  print_entries, Added, AddedItem, bump, item-AddedItem, outline_loop-Added,
  outline_items-print_entries,
}
use readflex.Outline.{
  Directory, Out, opening, target_of, print_page, begin_item, end_item, items_of, too_large,
  outline_loop, outline_item, outline_items,
}

-- The levels of items within items.
unfoldable pub levels : Exp → ℕ
levels (cons (cons (string title) (cons target children)) rest) =
    max (1 + levels children) (levels rest)
levels (cons (cons (string title) _) rest) = max 1 (levels rest)
levels (cons _ rest) = levels rest
levels _ = 0

abbrev Succeeds {ℓ} : {A : Type ℓ} → Result A → Type ℓ
Succeeds {A = A} m = (a : A) × (m ≡ ok a)

length-escape_byte-ge : (ch : ℕ) → 1 ≤ length (escape_byte ch)
unfolding escape_byte
length-escape_byte-ge ch = ground arith

length-escape-ge : (value : Bytes) → length value ≤ length (escape value)
unfolding escape
length-escape-ge [] = omega arith
length-escape-ge (ch ∷ value) = omega (
  arith,
  length-append (escape_byte ch) (escape value),
  length-escape_byte-ge ch,
  length-escape-ge value,
)

-- An entry is longer than its title and than its children.
length-print_entry-ge :
    (title : Bytes) (page : ℤ) (es : Entries)
    → length title + length (print_list false es) < length (print_entry (entry title page es))
unfolding print_entry quoted
length-print_entry-ge title page es =
    let a = codes ",\"children\":[" in
    let b = codes "]}" in
    let c = codes ",\"page\":" in
    omega (
      arith,
      length-escape-ge title,
      length-append (escape title) (b'"' ∷ []),
      length-append (quoted title) (c ++ (print_page page ++ (a ++ (print_list false es ++ b)))),
      length-append c (print_page page ++ (a ++ (print_list false es ++ b))),
      length-append (print_page page) (a ++ (print_list false es ++ b)),
      length-append a (print_list false es ++ b),
      length-append (print_list false es) b,
    )

length-print_list-more :
    (comma : Bool) (e : Entry) (es : Entries)
    → length (print_list comma (more e es))
      ≡ length (separator comma) + (length (print_entry e) + length (print_list true es))
unfolding print_list
length-print_list-more comma e es =
    length-append (separator comma) (print_entry e ++ print_list true es)
    ∙ ap (λ n. length (separator comma) + n) (length-append (print_entry e) (print_list true es))

begin_item-ok :
    (doc : Directory) (title : Bytes) (target : Exp) (out : Out)
    → length title ≤ max_text_bytes
    → (mid : Out) × (begin_item doc title target out ≡ ok mid) × (mid.visited ≡ out.visited)
unfolding begin_item json_string
begin_item-ok doc title target out short = elim (Result-cases (begin_item doc title target out)) [
  | inl (mid, e) ↦ (mid, e, ground arith)
  | inr (x, bad) ↦ absurd (ground arith)
]

items_of-ok :
    (depth : ℕ) (loop : Result Out) (o : Out)
    → depth ≤ 64
    → loop ≡ ok o
    → items_of depth loop ≡ ok (o.result ++ codes "]", o.visited)
unfolding items_of
items_of-ok depth loop o shallow e = ground arith

-- One item, whose children have been printed.
item-Succeeds :
    (doc : Directory) (title : Bytes) (target : Exp) (depth : ℕ) (out : Out) (loop : ℕ → Result Out)
    → length title ≤ max_text_bytes
    → depth ≤ 64
    → Succeeds (loop out.visited)
    → Succeeds (
        begin_item doc title target out >>= λ out'.
        items_of depth (loop out'.visited) >>= λ printed. ok (end_item out' printed))
item-Succeeds doc title target depth out loop short shallow (o, e) =
    let (mid, begun, v) = begin_item-ok doc title target out short in
    let printed = items_of-ok depth (loop mid.visited) o shallow (rw v e) in
    (end_item mid (o.result ++ codes "]", o.visited), rw (begun, printed))

round-Succeeds :
    (out mid : Out) (step : Result Out) (next : Out → Result Out)
    → out.visited < max_nodes
    → step ≡ ok mid
    → length mid.result ≤ max_text_bytes
    → Succeeds (next mid)
    → Succeeds (
        reject (leb max_nodes out.visited) outline_size >> step >>= λ mid.
        reject (too_large mid) outline_size >> next mid)
round-Succeeds out mid step next few e short (after, e') =
    let few' : leb max_nodes out.visited ≡ false = ground arith in
    let short' : too_large mid ≡ false = ground arith in (after, rw (few', e, short', e'))

-- A round at an entry with its children, before the rest of the list.
module _ (doc : Directory) (title : Bytes) (target : Exp) (es rest : Entries) (n m : ℕ) (out : Out)
    (short : length out.result
        + length (print_list out.comma (more (entry title (target_of doc target) es) rest))
      ≤ max_text_bytes) where
  -- What the entry takes of the room.
  sizes :
      (length title ≤ max_text_bytes)
      × (1 + length (print_list false es) ≤ max_text_bytes)
      × (length out.result
            + (length (separator out.comma)
                + (length (print_entry (entry title (target_of doc target) es))
                    + length (print_list true rest)))
          ≤ max_text_bytes)
  sizes =
      let e = entry title (target_of doc target) es in
      let all = length-print_list-more out.comma e rest in
      let own = length-print_entry-ge title (target_of doc target) es in
      (omega arith, omega arith, omega arith)

  entry-Succeeds :
      (depth : ℕ) (loop : ℕ → Result Out) (next : Out → Result Out)
      → ((visited : ℕ) → Ensures (Added (opening visited) es n) (loop visited))
      → out.visited + suc (n + m) ≤ max_nodes
      → depth ≤ 64
      → Succeeds (loop (out.visited + 1))
      → ((mid : Out)
          → mid.visited + m ≤ max_nodes
          → length mid.result + length (print_list mid.comma rest) ≤ max_text_bytes
          → Succeeds (next mid))
      → Succeeds (
          reject (leb max_nodes out.visited) outline_size
          >> (begin_item doc title target (bump out) >>= λ out'.
              items_of depth (loop out'.visited) >>= λ printed. ok (end_item out' printed))
          >>= λ mid. reject (too_large mid) outline_size >> next mid)
  entry-Succeeds depth loop next h few shallow s k =
      let e = entry title (target_of doc target) es in
      let (mid, made) = item-Succeeds doc title target depth (bump out) loop sizes.0 shallow s in
      let a =
        Ensures-ok (AddedItem (bump out) e n) made
          (item-AddedItem doc title target es n depth (bump out) loop h) in
      let total =
        ap length a.printed
        ∙ length-append out.result (separator out.comma ++ print_entry e)
        ∙ ap (λ x. length out.result + x) (length-append (separator out.comma) (print_entry e)) in
      let room : length mid.result + length (print_list true rest) ≤ max_text_bytes =
        omega (arith, total, sizes.2) in
      round-Succeeds out mid _ next (omega arith) made (omega (arith, room))
        (k mid (omega (arith, a.counted)) (rw a.comma room))

-- The loop returns if what it has to print and to visit still fits.
outline_loop-Succeeds :
    (items : Exp) (doc : Directory) (out : Out) (depth : ℕ)
    → out.visited + items_count items ≤ max_nodes
    → depth + levels items ≤ 64
    → length out.result + length (print_list out.comma (items_tree items doc)) ≤ max_text_bytes
    → Succeeds (outline_loop items doc out depth)
unfolding outline_loop outline_item items_tree items_count levels print_list
outline_loop-Succeeds (cons (cons (string title) (cons target children)) rest) doc out depth few
      deep short =
    entry-Succeeds doc title target (items_tree children doc) (items_tree rest doc)
      (items_count children) (items_count rest) out short (depth + 1)
      (λ visited. outline_loop children doc (opening visited) (depth + 1))
      (λ mid. outline_loop rest doc mid depth)
      (λ visited. outline_loop-Added children doc (opening visited) (depth + 1)) few (omega arith)
      (outline_loop-Succeeds children doc (opening (out.visited + 1)) (depth + 1) (omega arith)
        (omega arith)
        (sizes doc title target (items_tree children doc) (items_tree rest doc)
          (items_count children) (items_count rest) out short).1)
      (λ mid few' short'. outline_loop-Succeeds rest doc mid depth few' (omega arith) short')
outline_loop-Succeeds (cons (cons (string title) _) rest) doc out depth few deep short =
    entry-Succeeds doc title nil none (items_tree rest doc) 0 (items_count rest) out short
      (depth + 1) (λ visited. ok (opening visited)) (λ mid. outline_loop rest doc mid depth)
      (λ visited. record { printed = refl; counted = omega arith }) (omega arith) (omega arith)
      (opening (out.visited + 1), refl)
      (λ mid few' short'. outline_loop-Succeeds rest doc mid depth few' (omega arith) short')
outline_loop-Succeeds (cons _ rest) doc out depth few deep short =
    round-Succeeds out (bump out) (ok (bump out)) (λ mid. outline_loop rest doc mid depth)
      (omega arith) refl (omega arith)
      (outline_loop-Succeeds rest doc (bump out) depth (omega arith) deep short)
outline_loop-Succeeds _ doc out depth few deep short = (out, refl)

-- The outline is returned if it has at most 100000 items at no more than 64 levels below the depth,
-- and its JSON has at most 8 MiB; it is then the tree of the items, printed.
pub outline_items_returns :
    (doc : Directory) (items : Exp) (visited depth : ℕ)
    → visited + items_count items ≤ max_nodes
    → depth + levels items ≤ 64
    → length (print_entries (items_tree items doc)) ≤ max_text_bytes
    → outline_items doc items visited depth
      ≡ ok (print_entries (items_tree items doc), visited + items_count items)
unfolding outline_items
outline_items_returns doc items visited depth few shallow short =
    let tree = items_tree items doc in
    let (out, e) =
      outline_loop-Succeeds items doc (opening visited) depth few shallow (
        unfold print_entries in omega (arith, length-append (print_list false tree) (codes "]"))) in
    let made =
      items_of-ok depth (outline_loop items doc (opening visited) depth) out (omega arith) e in
    let (same, counted) =
      outline_items-print_entries doc items visited depth (unfold outline_items in made) in
    made ∙ rw (same, counted)
