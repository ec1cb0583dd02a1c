-- ===== src/Outline/Limits.antt =====
-- What a returned outline is, from the decoder's expression to the JSON.
use readflex.Prelude.{ℕ, ◌*◌, ◌≤◌, ◌≡◌, ◌∙◌, Bool, Bytes, length}
use readflex.Exp.{Exp, cdr}
use readflex.Failure.{ok, >>=-eq-ok}
use readflex.Json.Bounds.{allocated-ok}
use readflex.Json.{max_text_bytes}
use readflex.Outline.Tree.{items_tree, print_entries, outline_items-print_entries}
use readflex.Resource.{after-ok, after_run, adopted}
use readflex.Outline.{print_outline, Directory, outline_items, outline}
use readflex.TextLayer.{read_expression, expression}
use readflex.Wait.{Wait}

-- A returned outline is the tree of the items behind the head of the decoder's expression, printed, in
-- at most four times the limit for one text.
pub outline-print_entries :
    (doc : Directory) (timeout_ms : ℕ) (polls : Wait Exp) (has_memory : Bool) {json : Bytes}
    → (outline doc timeout_ms polls has_memory).result ≡ ok json
    → (value : Exp) × (expression timeout_ms polls ≡ ok value)
      × (json ≡ print_entries (items_tree (cdr value) doc))
      × (length json ≤ max_text_bytes * 4)
unfolding outline print_outline after_run adopted read_expression
outline-print_entries doc timeout_ms polls has_memory e =
    let (value, read, e1) = after-ok (expression timeout_ms polls) _ e in
    let (printed, made, e2) = >>=-eq-ok (outline_items doc (cdr value) 0 0) _ e1 in
    let (same, short) = allocated-ok has_memory printed.0 e2 in
    (value, read, same ∙ (outline_items-print_entries doc (cdr value) 0 0 made).0, short)
