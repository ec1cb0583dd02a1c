-- ===== src/Metadata/Named.antt =====
-- The errors of `pagecraft_djvu_metadata` have a text.
use readflex.Prelude.{ℕ, List, [], ◌∷◌, Option, Option-cases, inl, inr, Bool, Bytes, codes}
use readflex.Exp.{Exp}
use readflex.Failure.{Named, Named-bind}
use readflex.Json.Bounds.{json_string-Named, allocated-Named}
use readflex.Resource.{after-Named, after_run, adopted}
use readflex.Metadata.{Key, find_in, field, print_metadata, metadata}
use readflex.TextLayer.Named.{expression-Named}
use readflex.TextLayer.{read_expression, expression}
use readflex.Wait.{Wait}

field-Named : (annotations : List (Option (List Key))) (key : Bytes) → Named (field annotations key)
unfolding field
field-Named annotations key = elim (Option-cases (find_in key annotations)) [
  | inl e ↦ rw (field, e) tt
  | inr (v, e) ↦ rw (field, e) (json_string-Named v)
]

print_metadata-Named : (annotations : List (Option (List Key))) → Named (print_metadata annotations)
unfolding print_metadata
print_metadata-Named annotations =
    Named-bind (field annotations (codes "title")) _ (field-Named annotations (codes "title")) λ _.
      Named-bind (field annotations (codes "author")) _ (field-Named annotations (codes "author"))
        λ _. tt

pub metadata-Named :
    (timeout_ms : ℕ) (global_polls first_polls : Wait Exp) (keys_of : Exp → Option (List Key))
    (has_memory : Bool)
    → Named (metadata timeout_ms global_polls first_polls keys_of has_memory).result
unfolding metadata after_run adopted read_expression
metadata-Named timeout_ms global_polls first_polls keys_of has_memory =
    after-Named (expression timeout_ms global_polls) _ (expression-Named timeout_ms global_polls)
      λ g.
        after-Named (expression timeout_ms first_polls) _ (expression-Named timeout_ms first_polls)
          λ f.
            Named-bind (print_metadata _) _ (print_metadata-Named (keys_of g ∷ keys_of f ∷ []))
              λ json. allocated-Named has_memory json
