-- ===== src/Metadata/Lookup.antt =====
-- The value that a metadata field gets.
use mathlib.Core.Option
use readflex.Prelude.{
  ℕ, zero, suc, ◌≤◌, ◌≡◌, refl, sym, ap, ◌∙◌, ◌⊎◌, inl, inr, arith, true, false, Bool-cases, Option,
  none, some, Option-cases, List, [], ◌∷◌, ◌++◌, Bytes, codes, length, map, same, same_iff, All,
}
use readflex.Container.{max_nodes}
use readflex.Failure.{ok}
use readflex.Json.{json_string}
use readflex.Metadata.{Key, to_lower, is_key, find_value, find_in, field}

-- A key that gives the field a value: its name is the field's up to the case of letters.
pub record Gives (key : Bytes) (k : Key) (v : Bytes) : Type 0 where
  pub name : Bytes
  pub is_name : k.name ≡ some name
  pub folds : map to_lower name ≡ key
  pub is_value : k.value ≡ some v

abbrev pub GivesNothing : Bytes → Key → Type 0
GivesNothing key k = (v : Bytes) → ¬ Gives key k v

-- The first key of a list that gives a value.
pub data First (key v : Bytes) : List Key → Type 0 where
  here : {k : Key} {keys : List Key} → Gives key k v → First key v (k ∷ keys)
  later :
      {k : Key} {keys : List Key} → GivesNothing key k → First key v keys → First key v (k ∷ keys)

-- One key gives a value, or gives none.
Gives-cases :
    (key : Bytes) (k : Key)
    → ((v : Bytes) × Gives key k v × (is_key key k.name ≡ true))
      ⊎ (GivesNothing key k × ((is_key key k.name ≡ false) ⊎ (k.value ≡ none)))
unfolding is_key
Gives-cases key k = elim (Option-cases k.name) [
  | inl unnamed ↦ inr (λ v g. cc (g.is_name, unnamed), inl (rw unnamed))
  | inr (name, named) ↦ elim (Bool-cases (same (map to_lower name) key)) [
    | inl hit ↦ elim (Option-cases k.value) [
      | inl empty ↦ inr (λ v g. cc (g.is_value, empty), inr empty)
      | inr (v, valued) ↦ inl (
        v,
        record {
          name = name;
          is_name = named;
          folds = (same_iff (map to_lower name) key).0 hit;
          is_value = valued;
        },
        rw named hit,
      )
    ]
    | inr miss ↦ inr (
      λ v g. ground (
        arith,
        (same_iff (map to_lower name) key).1,
        ap (Option.map (map to_lower)) (sym g.is_name ∙ named),
        g.folds,
      ),
      inl (rw named miss),
    )
  ]
]

-- Within the limit on keys, the value found is that of the first key that gives one, and none is found
-- only if no key does.
pub find_value-First :
    (rounds : ℕ) (key : Bytes) (keys : List Key)
    → length keys ≤ rounds
    → ((v : Bytes) × (find_value rounds key keys ≡ some v) × First key v keys)
      ⊎ ((find_value rounds key keys ≡ none) × All (GivesNothing key) keys)
unfolding find_value
find_value-First zero key [] h = inr (refl, tt)
find_value-First (suc rounds) key [] h = inr (refl, tt)
find_value-First zero key (k ∷ keys) h = absurd (omega arith)
find_value-First (suc rounds) key (k ∷ keys) h = elim (Gives-cases key k) [
  | inl (v, g, hit) ↦ inl (v, ground (arith, g.is_value), here g)
  | inr (nothing, missed) ↦ elim (find_value-First rounds key keys (omega arith)) [
    | inl (v, e, first) ↦ inl (v, ground arith, later nothing first)
    | inr (e, rest) ↦ inr (ground arith, (nothing, rest))
  ]
]

-- The annotations that have keys, one list behind the other.
pub all_keys : List (Option (List Key)) → List Key
all_keys [] = []
all_keys (none ∷ annotations) = all_keys annotations
all_keys (some keys ∷ annotations) = keys ++ all_keys annotations

First-append :
    (key v : Bytes) {keys : List Key} (more : List Key)
    → First key v keys
    → First key v (keys ++ more)
First-append key v more (here g) = here g
First-append key v more (later n f) = later n (First-append key v more f)

First-append_right :
    (key v : Bytes) (keys : List Key) {more : List Key}
    → All (GivesNothing key) keys
    → First key v more
    → First key v (keys ++ more)
First-append_right key v [] n f = f
First-append_right key v (k ∷ keys) n f = later n.0 (First-append_right key v keys n.1 f)

All-append :
    (key : Bytes) (keys more : List Key)
    → All (GivesNothing key) keys
    → All (GivesNothing key) more
    → All (GivesNothing key) (keys ++ more)
All-append key [] more n m = m
All-append key (k ∷ keys) more n m = (n.0, All-append key keys more n.1 m)

-- No annotation has more keys than are looked at.
abbrev pub FewKeys : List (Option (List Key)) → Type 0
FewKeys [] = Unit {0}
FewKeys (none ∷ annotations) = FewKeys annotations
FewKeys (some keys ∷ annotations) = (length keys ≤ max_nodes) × FewKeys annotations

find_in-First :
    (key : Bytes) (annotations : List (Option (List Key)))
    → FewKeys annotations
    → ((v : Bytes) × (find_in key annotations ≡ some v) × First key v (all_keys annotations))
      ⊎ ((find_in key annotations ≡ none) × All (GivesNothing key) (all_keys annotations))
unfolding find_in all_keys
find_in-First key [] few = inr (refl, tt)
find_in-First key (none ∷ annotations) few = find_in-First key annotations few
find_in-First key (some keys ∷ annotations) few = elim (find_value-First max_nodes key keys few.0) [
  | inl (v, e, first) ↦ inl (v, rw (find_in, e), First-append key v _ first)
  | inr (e, nothing) ↦ elim (find_in-First key annotations few.1) [
    | inl (v, e', first) ↦ inl (v, rw (find_in, e) e', First-append_right key v keys nothing first)
    | inr (e', rest) ↦ inr (rw (find_in, e) e', All-append key keys _ nothing rest)
  ]
]

-- If no annotation has more than 100000 keys, a field of the metadata is the text of the first key,
-- the document's before those of the first page, whose name is the field's up to the case of letters
-- and which has a text, and it is `null` only if there is no such key.
pub field-First :
    (key : Bytes) (annotations : List (Option (List Key)))
    → FewKeys annotations
    → ((v : Bytes) × (field annotations key ≡ json_string v) × First key v (all_keys annotations))
      ⊎ ((field annotations key ≡ ok (codes "null"))
          × All (GivesNothing key) (all_keys annotations))
unfolding field
field-First key annotations few = elim (find_in-First key annotations few) [
  | inl (v, e, first) ↦ inl (v, rw (field, e), first)
  | inr (e, nothing) ↦ inr (rw (field, e), nothing)
]
