-- ===== src/Outline/Named.antt =====
-- The errors of `pagecraft_djvu_outline` have a text.
use readflex.Prelude.{ℕ, ◌+◌, Bool, Bytes, leb}
use readflex.Container.{max_nodes}
use readflex.Exp.{Exp, nil, cons, string, cdr}
use readflex.Failure.{
  Result, ok, ◌>>=◌, ◌>>◌, reject, Named, Named-bind, Named-reject, outline_size, outline_depth,
}
use readflex.Json.Bounds.{json_string-Named, allocated-Named}
use readflex.Json.{json_string}
use readflex.Resource.{after-Named, after_run, adopted}
use readflex.Outline.{
  Directory, Out, opening, begin_item, end_item, items_of, too_large, outline_loop, outline_item,
  outline_items, outline, print_outline,
}
use readflex.TextLayer.Named.{expression-Named}
use readflex.TextLayer.{read_expression, expression}
use readflex.Wait.{Wait}

begin_item-Named :
    (doc : Directory) (title : Bytes) (target : Exp) (out : Out)
    → Named (begin_item doc title target out)
unfolding begin_item
begin_item-Named doc title target out =
    Named-bind (json_string title) _ (json_string-Named title) λ _. tt

items_of-Named : (depth : ℕ) (loop : Result Out) → Named loop → Named (items_of depth loop)
unfolding items_of
items_of-Named depth loop h =
    Named-bind _ _ (Named-reject _ outline_depth tt) λ _. Named-bind loop _ h λ _. tt

item-Named :
    (doc : Directory) (title : Bytes) (target : Exp) (out : Out) (depth : ℕ)
    (loop : Out → Result Out)
    → ((mid : Out) → Named (loop mid))
    → Named (
        begin_item doc title target out >>= λ out'.
        items_of depth (loop out') >>= λ printed. ok (end_item out' printed))
item-Named doc title target out depth loop h =
    Named-bind (begin_item doc title target out) _ (begin_item-Named doc title target out) λ mid.
      Named-bind (items_of depth (loop mid)) _ (items_of-Named depth (loop mid) (h mid)) λ _. tt

round-Named :
    (full : Bool) (step : Result Out) (next : Out → Result Out)
    → Named step
    → ((mid : Out) → Named (next mid))
    → Named (
        reject full outline_size >> step >>= λ mid. reject (too_large mid) outline_size >> next mid)
round-Named full step next h k =
    Named-bind (reject full outline_size >> step) _
      (Named-bind _ _ (Named-reject full outline_size tt) (λ _. h))
      λ mid. Named-bind _ _ (Named-reject (too_large mid) outline_size tt) λ _. k mid

outline_loop-Named :
    (items : Exp) (doc : Directory) (out : Out) (depth : ℕ)
    → Named (outline_loop items doc out depth)
unfolding outline_loop outline_item
outline_loop-Named (cons (cons (string title) (cons target children)) rest) doc out depth =
    round-Named _ _ _
      (item-Named doc title target _ (depth + 1) _
        (λ mid. outline_loop-Named children doc (opening mid.visited) (depth + 1)))
      (λ mid. outline_loop-Named rest doc mid depth)
outline_loop-Named (cons (cons (string title) _) rest) doc out depth =
    round-Named _ _ _ (item-Named doc title nil _ (depth + 1) _ (λ mid. tt))
      (λ mid. outline_loop-Named rest doc mid depth)
outline_loop-Named (cons _ rest) doc out depth =
    round-Named (leb max_nodes out.visited) (ok (record out { visited = out.visited + 1 }))
      (λ mid. outline_loop rest doc mid depth) tt (λ mid. outline_loop-Named rest doc mid depth)
outline_loop-Named _ doc out depth = tt

pub outline-Named :
    (doc : Directory) (timeout_ms : ℕ) (polls : Wait Exp) (has_memory : Bool)
    → Named (outline doc timeout_ms polls has_memory).result
unfolding outline print_outline outline_items after_run adopted read_expression
outline-Named doc timeout_ms polls has_memory =
    after-Named (expression timeout_ms polls) _ (expression-Named timeout_ms polls) λ value.
      Named-bind (outline_items doc (cdr value) 0 0) _
        (items_of-Named 0 _ (outline_loop-Named (cdr value) doc (opening 0) 0))
        λ printed. allocated-Named has_memory printed.0
