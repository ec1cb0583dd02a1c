-- ===== src/Metadata.antt =====
-- `pagecraft_djvu_metadata` of pagecraft_djvu.cpp. What `ddjvu_anno_get_metadata_keys`,
-- `miniexp_to_name` and `ddjvu_anno_get_metadata` answer about an annotation is a parameter.
pub mod Lookup
pub mod Named
mod Tests
use readflex.Prelude.{
  ℕ, zero, suc, ◌+◌, ◌≤◌, Bool, true, false, ◌&&◌, Option, none, some, List, [], ◌∷◌, ◌++◌, Bytes,
  codes, map, same, leb, if◌then◌else◌,
}
use readflex.Container.{max_nodes}
use readflex.Exp.{Exp, consp}
use readflex.Failure.{Result, ok, err, ◌>>=◌}
use readflex.Json.{json_string, allocated}
use readflex.TextLayer.{read_expression}
use readflex.Resource.{Run, after_run, adopted, expression_1, expression_2}
use readflex.Wait.{Wait}

-- A key of an annotation: its name, and the text it is given, either of which may be null.
pub record Key : Type 0 where
  pub name : Option Bytes
  pub value : Option Bytes

-- `std::tolower` in the "C" locale.
pub to_lower : ℕ → ℕ
to_lower c = if leb b'A' c && leb c b'Z' then c + 32 else c

pub is_key : Bytes → Option Bytes → Bool
unfolding to_lower
is_key key none = false
is_key key (some name) = same (map to_lower name) key

-- The loop over the keys of one annotation, of which at most `rounds` are looked at.
pub find_value : ℕ → Bytes → List Key → Option Bytes
find_value zero key keys = none
find_value (suc rounds) key [] = none
find_value (suc rounds) key (k ∷ keys) =
    let rest = find_value rounds key keys in
    if is_key key k.name then elim k.value [ some v ↦ some v | none ↦ rest ] else rest

-- The annotations in turn. Keys that are null are passed over.
pub find_in : Bytes → List (Option (List Key)) → Option Bytes
find_in key [] = none
find_in key (none ∷ annotations) = find_in key annotations
find_in key (some keys ∷ annotations) = elim (find_value max_nodes key keys) [
  | some v ↦ some v
  | none ↦ find_in key annotations
]

pub field : List (Option (List Key)) → Bytes → Result Bytes
field annotations key = elim (find_in key annotations) [
  | some v ↦ json_string v
  | none ↦ ok (codes "null")
]

pub print_metadata : List (Option (List Key)) → Result Bytes
print_metadata annotations = do
  title ← field annotations (codes "title")
  author ← field annotations (codes "author")
  ok (codes "{\"title\":" ++ title ++ codes ",\"author\":" ++ author ++ codes "}")

-- `ddjvu_document_get_anno` protects nothing.
unfoldable pub keeps_none : Exp → Bool
keeps_none e = false

-- The expressions are released at the end of the function, the second one first. `keys_of` is
-- `ddjvu_anno_get_metadata_keys` with the names and the texts of the keys.
unfoldable pub metadata : ℕ → Wait Exp → Wait Exp → (Exp → Option (List Key)) → Bool → Run Bytes
unfolding keeps_none
metadata timeout_ms global_polls first_polls keys_of has_memory =
    after_run (read_expression expression_1 keeps_none timeout_ms global_polls) λ global.
      adopted expression_1 (
        after_run (read_expression expression_2 consp timeout_ms first_polls) λ first.
          adopted expression_2 (record {
            result = print_metadata (keys_of global ∷ keys_of first ∷ []) >>= λ json.
                allocated has_memory json;
            events = [];
          }))
