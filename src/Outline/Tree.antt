-- ===== src/Outline/Tree.antt =====
-- The outline as a tree, how the tree is printed, and `outline_items` against it.
use readflex.Prelude.{
  ℕ, suc, ◌+◌, ◌≡◌, refl, sym, ap, ◌∙◌, arith, [], ◌++◌, append_assoc, append-nil, Bytes, codes,
  inl, inr, Bool-cases, Bool, true, false, if◌then◌else◌, ℤ, negsuc,
}
use readflex.Exp.{Exp, nil, cons, string}
use readflex.Failure.{
  Result, ok, err, ◌>>=◌, ◌>>◌, reject, Ensures, Ensures-bind, Ensures-ok, Ensures-mono,
  outline_size,
}
use readflex.Json.Bounds.{quoted, json_string-quoted}
use readflex.Json.{json_string}
use readflex.Outline.{
  Directory, Out, opening, target_of, print_page, begin_item, end_item, items_of, too_large,
  outline_loop, outline_item, outline_items,
}

mutual
  pub data Entry : Type 0 where
    entry : Bytes → ℤ → Entries → Entry

  pub data Entries : Type 0 where
    none : Entries
    more : Entry → Entries → Entries

-- An item with a title is an entry; its target and its children may be missing. Other items are
-- passed over, with all that is below them.
unfoldable pub items_tree : Exp → Directory → Entries
items_tree (cons (cons (string title) (cons target children)) rest) doc =
    more (entry title (target_of doc target) (items_tree children doc)) (items_tree rest doc)
items_tree (cons (cons (string title) _) rest) doc =
    more (entry title (negsuc 0) none) (items_tree rest doc)
items_tree (cons _ rest) doc = items_tree rest doc
items_tree _ doc = none

-- The items that the loops visit.
unfoldable pub items_count : Exp → ℕ
items_count (cons (cons (string title) (cons target children)) rest) =
    suc (items_count children + items_count rest)
items_count (cons _ rest) = suc (items_count rest)
items_count _ = 0

abbrev pub separator : Bool → Bytes
separator comma = if comma then codes "," else []

unfoldable mutual
  pub print_entry : Entry → Bytes
  print_entry (entry title page children) =
      codes "{\"title\":"
      ++ (quoted title
          ++ (codes ",\"page\":"
              ++ (print_page page
                  ++ (codes ",\"children\":[" ++ (print_list false children ++ codes "]}")))))

  -- The flag is whether something stands in front.
  pub print_list : Bool → Entries → Bytes
  print_list comma none = []
  print_list comma (more e es) = separator comma ++ (print_entry e ++ print_list true es)

unfoldable pub print_entries : Entries → Bytes
print_entries es = codes "[" ++ (print_list false es ++ codes "]")

-- What a run of the loop has added once it returns.
pub record Added (out : Out) (es : Entries) (n : ℕ) (after : Out) : Type 0 where
  pub printed : after.result ≡ out.result ++ print_list out.comma es
  pub counted : after.visited ≡ out.visited + n

-- What the head of an item has added.
record Begun (out : Out) (title : Bytes) (page : ℤ) (after : Out) : Type 0 where
  begun :
      after.result
      ≡ out.result
        ++ (separator out.comma
            ++ (codes "{\"title\":" ++ (quoted title ++ (codes ",\"page\":" ++ print_page page))))
  comma : after.comma ≡ true
  visited : after.visited ≡ out.visited

begin_item-Begun :
    (doc : Directory) (title : Bytes) (target : Exp) (out : Out)
    → Ensures (Begun out title (target_of doc target)) (begin_item doc title target out)
unfolding begin_item
begin_item-Begun doc title target out =
    Ensures-bind (λ s. s ≡ quoted title) (Begun out title (target_of doc target))
      (json_string title) _ (json_string-quoted title)
      λ s e. record {
        begun = elim (Bool-cases out.comma) [
          | inl second ↦ rw (e, second) (simp append_assoc)
          | inr first ↦ rw (e, first) (simp append_assoc)
        ];
        comma = refl;
        visited = refl;
      }

-- The children of an item, at their depth.
items_of-Added :
    (out : Out) (es : Entries) (n depth : ℕ) (loop : Result Out)
    → Ensures (Added (opening out.visited) es n) loop
    → Ensures
        (λ (printed : Bytes × ℕ). (printed.0 ≡ print_entries es) × (printed.1 ≡ out.visited + n))
        (items_of depth loop)
unfolding items_of print_entries
items_of-Added out es n depth (ok after) h =
    ground (arith, h.printed, h.counted, append_assoc (codes "[") (print_list false es) (codes "]"))
items_of-Added out es n depth (err e) h = ground arith

-- A whole item with its children.
pub record AddedItem (out : Out) (e : Entry) (n : ℕ) (after : Out) : Type 0 where
  pub printed : after.result ≡ out.result ++ (separator out.comma ++ print_entry e)
  pub comma : after.comma ≡ true
  pub counted : after.visited ≡ out.visited + n

pub item-AddedItem :
    (doc : Directory) (title : Bytes) (target : Exp) (es : Entries) (n depth : ℕ) (out : Out)
    (loop : ℕ → Result Out)
    → ((visited : ℕ) → Ensures (Added (opening visited) es n) (loop visited))
    → Ensures (AddedItem out (entry title (target_of doc target) es) n) (
        begin_item doc title target out >>= λ out'.
        items_of depth (loop out'.visited) >>= λ printed. ok (end_item out' printed))
unfolding end_item print_entry
item-AddedItem doc title target es n depth out loop h =
    Ensures-bind (Begun out title (target_of doc target)) _ (begin_item doc title target out) _
      (begin_item-Begun doc title target out)
      λ mid b.
        Ensures-bind
          (λ (printed : Bytes × ℕ). (printed.0 ≡ print_entries es) × (printed.1 ≡ mid.visited + n))
          _ (items_of depth (loop mid.visited)) _
          (items_of-Added mid es n depth (loop mid.visited) (h mid.visited))
          λ (children, visited) p. record {
            printed = rw (b.begun, p.0) (unfold print_entries in simp append_assoc);
            comma = b.comma;
            counted = p.1 ∙ ap (λ v. v + n) b.visited;
          }

-- The same out with one more item visited.
abbrev pub bump : Out → Out
bump out = record out { visited = out.visited + 1 }

Ensures-reject {ℓ κ} :
    {A : Type ℓ} (P : A → Type κ) (bad : Bool) (m : Result A)
    → Ensures P m
    → Ensures P (reject bad outline_size >> m)
Ensures-reject P true m h = tt
Ensures-reject P false m h = h

module _ (out : Out) (e : Entry) (es : Entries) (n m : ℕ) (full : Bool) (step : Result Out)
    (next : Out → Result Out) (rest : (mid : Out) → Ensures (Added mid es m) (next mid)) where
  -- A round at an entry.
  round-more :
      (total : ℕ)
      → total ≡ suc (n + m)
      → Ensures (AddedItem (bump out) e n) step
      → Ensures (Added out (more e es) total) (
          reject full outline_size >> step >>= λ mid.
          reject (too_large mid) outline_size >> next mid)
  round-more total sum h =
      Ensures-bind (AddedItem (bump out) e n) _ (reject full outline_size >> step) _
        (Ensures-reject _ full step h)
        λ mid a. Ensures-reject _ (too_large mid) (next mid) (
          Ensures-mono (next mid) (rest mid) λ after r. record {
            printed = rw (r.printed, a.printed, a.comma) (unfold print_list in simp append_assoc);
            counted = omega (arith, r.counted, a.counted);
          })

  -- A round at an item that is passed over.
  round-skip :
      step ≡ ok (bump out)
      → Ensures (Added out es (suc m)) (
          reject full outline_size >> step >>= λ mid.
          reject (too_large mid) outline_size >> next mid)
  round-skip h =
      Ensures-bind (λ mid. mid ≡ bump out) _ (reject full outline_size >> step) _
        (Ensures-reject _ full step (rw h refl))
        λ mid a. Ensures-reject _ (too_large mid) (next mid) (
          Ensures-mono (next mid) (rest mid) λ after r. record {
            printed = rw (r.printed, a);
            counted = omega (arith, r.counted, ap (λ o. o.visited) a);
          })

pub outline_loop-Added :
    (items : Exp) (doc : Directory) (out : Out) (depth : ℕ)
    → Ensures
        (Added out (items_tree items doc) (items_count items))
        (outline_loop items doc out depth)
unfolding outline_loop outline_item items_tree items_count print_list
outline_loop-Added (cons (cons (string title) (cons target children)) rest) doc out depth =
    round-more out _ (items_tree rest doc) (items_count children) (items_count rest) _ _ _
      (λ mid. outline_loop-Added rest doc mid depth) _ (omega arith)
      (item-AddedItem doc title target (items_tree children doc) (items_count children) (depth + 1)
        (bump out) (λ visited. outline_loop children doc (opening visited) (depth + 1))
        (λ visited. outline_loop-Added children doc (opening visited) (depth + 1)))
outline_loop-Added (cons (cons (string title) _) rest) doc out depth =
    round-more out _ (items_tree rest doc) 0 (items_count rest) _ _ _
      (λ mid. outline_loop-Added rest doc mid depth) _ (omega arith)
      (item-AddedItem doc title nil none 0 (depth + 1) (bump out) (λ visited. ok (opening visited))
        (λ visited. record { printed = refl; counted = omega arith }))
outline_loop-Added (cons _ rest) doc out depth =
    round-skip out (entry [] (negsuc 0) none) (items_tree rest doc) 0 (items_count rest) _ _ _
      (λ mid. outline_loop-Added rest doc mid depth) refl
outline_loop-Added _ doc out depth = record {
  printed = sym (append-nil out.result);
  counted = omega arith;
}

-- The outline that is returned is the tree of the items, printed, and every item was counted once.
pub outline_items-print_entries :
    (doc : Directory) (items : Exp) (visited depth : ℕ) {json : Bytes} {visited' : ℕ}
    → outline_items doc items visited depth ≡ ok (json, visited')
    → (json ≡ print_entries (items_tree items doc)) × (visited' ≡ visited + items_count items)
unfolding outline_items
outline_items-print_entries doc items visited depth e =
    Ensures-ok
      (λ (printed : Bytes × ℕ).
        (printed.0 ≡ print_entries (items_tree items doc))
        × (printed.1 ≡ visited + items_count items))
      e
      (items_of-Added (opening visited) (items_tree items doc) (items_count items) depth _
        (outline_loop-Added items doc (opening visited) depth))
