-- ===== src/Metadata/Tests.antt =====
-- A field of concrete metadata.
use readflex.Prelude.{◌≡◌, ◌⊎◌, arith, none, some, Option, List, [], ◌∷◌, All, Bytes, codes}
use readflex.Failure.{ok}
use readflex.Json.{json_string}
use readflex.Metadata.Lookup.{GivesNothing, First, FewKeys, all_keys, field-First}
use readflex.Metadata.{Key, field}

abbrev annotations : List (Option (List Key))
annotations =
    none
    ∷ some (
        record { name = some (codes "Title"); value = none }
        ∷ record { name = some (codes "TITLE"); value = some (codes "Faust") }
        ∷ [])
    ∷ []

annotations-FewKeys : FewKeys annotations
annotations-FewKeys = (omega arith, tt)

field-First_example :
    ((v : Bytes) × (field annotations (codes "title") ≡ json_string v)
      × First (codes "title") v (all_keys annotations))
    ⊎ ((field annotations (codes "title") ≡ ok (codes "null"))
        × All (GivesNothing (codes "title")) (all_keys annotations))
field-First_example = field-First (codes "title") annotations annotations-FewKeys
