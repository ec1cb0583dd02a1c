-- ===== src/Decoder/Bookmarks/Printed.antt =====
-- The outline from the bookmarks of the file to the JSON of the adapter.
use readflex.Decoder.Bookmarks.Tree.{
  Forest, listed, items, entries, get_outline-listed, items_tree-items,
}
use readflex.Decoder.Bookmarks.{get_outline}
use readflex.Exp.{cdr, nil}
use readflex.Exp.Lists.{list_before}
use readflex.Failure.{ok, >>=-eq-ok}
use readflex.Json.Bounds.{allocated-ok}
use readflex.Outline.Tree.{items_tree, print_entries, outline_items-print_entries}
use readflex.Outline.{Directory, outline_items, print_outline}
use readflex.Prelude.{◌≡◌, refl, ap, ◌∙◌, Bool, Bytes}

-- If the adapter prints an outline for the expression that the decoder makes of the bookmarks, it is
-- the tree of the bookmarks.
pub print_outline-listed :
    (forest : Forest) (doc : Directory) (has_memory : Bool) {json : Bytes}
    → print_outline doc has_memory (get_outline (listed forest)) ≡ ok json
    → json ≡ print_entries (entries forest doc)
unfolding print_outline
print_outline-listed forest doc has_memory e =
    let value = get_outline (listed forest) in
    let (printed, made, e2) = >>=-eq-ok (outline_items doc (cdr value) 0 0) _ e in
    let (same, _) = allocated-ok has_memory printed.0 e2 in
    let rest : cdr value ≡ list_before (items forest) nil =
      ap cdr (get_outline-listed forest) ∙ (unfold cdr in refl) in
    same
    ∙ (outline_items-print_entries doc (cdr value) 0 0 made).0
    ∙ ap (λ l. print_entries (items_tree l doc)) rest
    ∙ ap print_entries (items_tree-items forest doc)
