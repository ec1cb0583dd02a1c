-- ===== src/Decoder/Keys/Last.antt =====
-- What the metadata of annotations holds.
use readflex.Decoder.Keys.{
  is_symbol, Entries, put, entry_of, metadata_pairs, metadata_sub, find, c_text, anno_get_metadata,
  anno_get_metadata_keys,
}
use readflex.Exp.Lists.{caar, cdar}
use readflex.Exp.{Exp, nil, cons, symbol, string, number, object, dummy}
use readflex.Prelude.{
  ◌≡◌, refl, ap, ◌∙◌, sym, subst, arith, Bool, true, false, Bool-cases, Option-cases, inl, inr,
  Option, none, some, List, [], ◌∷◌, ◌++◌, map, Bytes, codes, same, same_iff, if◌then◌else◌,
}

find-put :
    (key k v : Bytes) (m : Entries)
    → find key (put k v m) ≡ (if same k key then some v else find key m)
unfolding find put
find-put key k v [] = refl
find-put key k v ((k', v') ∷ m) = elim (Bool-cases (same k' k)) [
  | inl e ↦
      let eq = (same_iff k' k).0 e in
      rw (e, eq)
        (elim (Bool-cases (same k key)) [ inl h ↦ rw (find, h) refl | inr h ↦ rw (find, h) refl ])
  | inr n ↦ elim (Bool-cases (same k key)) [
    | inl h ↦
        let eq = (same_iff k key).0 h in
        let other : same k' key ≡ false = subst (λ x. same k' x ≡ false) eq n in
        rw (n, find, other, find-put key k v m, h) refl
    | inr h ↦ rw (n, h, find, find-put key k v m, h) refl
  ]
]

-- The entries of all metadata in the annotations, in the order in which they stand.
pairs : Exp → Entries
pairs (cons a q) = elim (entry_of a) [ none ↦ pairs q | some kv ↦ kv ∷ pairs q ]
pairs _ = []

pub entries : Exp → Entries
entries (cons a p) =
    (if is_symbol (caar (cons a p)) (codes "metadata") then pairs (cdar (cons a p)) else [])
    ++ entries p
entries _ = []

abbrev or_else : Option Bytes → Option Bytes → Option Bytes
or_else (some v) r = some v
or_else none r = r

-- The value of the last entry for a key.
pub last_value : Bytes → Entries → Option Bytes
last_value key [] = none
last_value key ((k, v) ∷ es) = or_else (last_value key es) (if same k key then some v else none)

or_else_assoc : (a b c : Option Bytes) → or_else (or_else a b) c ≡ or_else a (or_else b c)
or_else_assoc none b c = refl
or_else_assoc (some v) b c = refl

last_value-append :
    (key : Bytes) (es fs : Entries)
    → last_value key (es ++ fs) ≡ or_else (last_value key fs) (last_value key es)
unfolding last_value
last_value-append key [] fs = elim (Option-cases (last_value key fs)) [
  | inl e ↦ rw e refl
  | inr (v, e) ↦ rw e refl
]
last_value-append key ((k, v) ∷ es) fs =
    ap (λ r. or_else r (if same k key then some v else none)) (last_value-append key es fs)
    ∙ or_else_assoc (last_value key fs) (last_value key es) _

or_else-if :
    (b : Bool) (v : Bytes) (r : Option Bytes)
    → (if b then some v else r) ≡ or_else (if b then some v else none) r
or_else-if true v r = refl
or_else-if false v r = refl

find-pairs :
    (key : Bytes) (q : Exp) (m : Entries)
    → find key (metadata_pairs q m) ≡ or_else (last_value key (pairs q)) (find key m)
unfolding metadata_pairs pairs last_value
find-pairs key (cons a q) m = elim (Option-cases (entry_of a)) [
  | inl e ↦ rw (pairs, e) (find-pairs key q m)
  | inr ((k, v), e) ↦
      rw (pairs, e)
        (find-pairs key q (put k v m)
          ∙ ap (or_else (last_value key (pairs q)))
              (find-put key k v m ∙ or_else-if (same k key) v (find key m))
          ∙ sym (or_else_assoc (last_value key (pairs q)) _ (find key m)))
]
find-pairs key nil m = refl
find-pairs key (number n) m = refl
find-pairs key (symbol s) m = refl
find-pairs key (string s) m = refl
find-pairs key object m = refl
find-pairs key dummy m = refl

find-metadata :
    (key : Bytes) (p : Exp) (m : Entries)
    → find key (metadata_sub p m) ≡ or_else (last_value key (entries p)) (find key m)
unfolding metadata_sub entries
find-metadata key (cons a p) m =
    elim (Bool-cases (is_symbol (caar (cons a p)) (codes "metadata"))) [
      | inl h ↦
          let q = cdar (cons a p) in
          rw h (
            find-metadata key p (metadata_pairs q m)
            ∙ ap (or_else (last_value key (entries p))) (find-pairs key q m)
            ∙ sym
                (or_else_assoc (last_value key (entries p)) (last_value key (pairs q)) (find key m))
            ∙ ap (λ r. or_else r (find key m)) (sym (last_value-append key (pairs q) (entries p))))
      | inr h ↦ rw h (find-metadata key p m)
    ]
find-metadata key nil m = unfold last_value in refl
find-metadata key (number n) m = unfold last_value in refl
find-metadata key (symbol s) m = unfold last_value in refl
find-metadata key (string s) m = unfold last_value in refl
find-metadata key object m = unfold last_value in refl
find-metadata key dummy m = unfold last_value in refl

or_else-none : (a : Option Bytes) → or_else a none ≡ a
or_else-none none = refl
or_else-none (some v) = refl

-- The value that is found for a key is that of the last entry for it in all metadata, in front of its
-- first NUL.
pub anno_get_metadata-last_value :
    (p : Exp) (key : Bytes) → anno_get_metadata p key ≡ c_text (last_value key (entries p))
unfolding anno_get_metadata find
anno_get_metadata-last_value p key = ap c_text (find-metadata key p [] ∙ or_else-none _)

unfoldable mem : Bytes → List Bytes → Bool
mem key [] = false
mem key (k ∷ ks) = let rest = mem key ks in if same k key then true else rest

abbrev is_found : Option Bytes → Bool
is_found none = false
is_found (some _) = true

found-find :
    (key : Bytes) (m : Entries) → mem key (map (λ kv. kv.0) m) ≡ is_found (c_text (find key m))
unfolding mem find
found-find key [] = refl
found-find key ((k, v) ∷ m) = elim (Bool-cases (same k key)) [
  | inl h ↦ rw h refl
  | inr h ↦ rw h (found-find key m)
]

-- The keys of the metadata are those for which there is a value.
anno_get_metadata_keys-found :
    (p : Exp) (key : Bytes) (keys : List Bytes)
    → anno_get_metadata_keys true p ≡ some keys
    → mem key keys ≡ is_found (anno_get_metadata p key)
unfolding anno_get_metadata_keys anno_get_metadata
anno_get_metadata_keys-found p key keys e =
    subst (λ ks. mem key ks ≡ is_found (c_text (find key (metadata_sub p [])))) (grind (arith, e))
      (found-find key (metadata_sub p []))
