-- ===== src/Decoder/Keys.antt =====
-- The helpers for annotations at the end of ddjvuapi.cpp, from `simple_anno_sub` to
-- `ddjvu_anno_get_xmp`. A symbol is given by its name, since equal names have one symbol; no annotation
-- holds `miniexp_dummy`. A map keeps its keys in the order in which they came, one that the source
-- leaves to a hash.
pub mod Last
use readflex.Exp.Lists.{caar, cadr, cdar, c_str}
use readflex.Exp.{Exp, nil, cons, symbol, string, consp, car, cdr, nth}
use readflex.Prelude.{
  ℕ, Bool, true, false, ◌&&◌, Option, none, some, List, [], ◌∷◌, Bytes, codes, same, map,
  if◌then◌else◌,
}

unfoldable pub is_symbol : Exp → Bytes → Bool
is_symbol (symbol t) s = same t s
is_symbol _ s = false

-- `miniexp_to_name` of a symbol, and else the result so far.
unfoldable name_or : Exp → Option Bytes → Option Bytes
name_or (symbol t) result = some t
name_or _ result = result

unfoldable simple_anno_sub : Exp → Bytes → ℕ → Option Bytes → Option Bytes
unfolding is_symbol name_or nth car
simple_anno_sub (cons a p) s i result =
    simple_anno_sub p s i (if is_symbol (car a) s then name_or (nth i a) result else result)
simple_anno_sub _ s i result = result

unfoldable anno_get_bgcolor : Exp → Option Bytes
unfolding simple_anno_sub
anno_get_bgcolor p = simple_anno_sub p (codes "background") 1 none

unfoldable anno_get_zoom : Exp → Option Bytes
unfolding simple_anno_sub
anno_get_zoom p = simple_anno_sub p (codes "zoom") 1 none

unfoldable anno_get_mode : Exp → Option Bytes
unfolding simple_anno_sub
anno_get_mode p = simple_anno_sub p (codes "mode") 1 none

unfoldable anno_get_horizalign : Exp → Option Bytes
unfolding simple_anno_sub
anno_get_horizalign p = simple_anno_sub p (codes "align") 1 none

unfoldable anno_get_vertalign : Exp → Option Bytes
unfolding simple_anno_sub
anno_get_vertalign p = simple_anno_sub p (codes "align") 2 none

-- The loop that fills `k`.
unfoldable hyperlinks : Exp → List Exp
unfolding is_symbol caar car
hyperlinks (cons a p) =
    let rest = hyperlinks p in
    if is_symbol (caar (cons a p)) (codes "maparea") then a ∷ rest else rest
hyperlinks _ = []

-- Nothing, if there is no memory for the array.
unfoldable anno_get_hyperlinks : Bool → Exp → Option (List Exp)
unfolding hyperlinks
anno_get_hyperlinks has_memory annotations =
    if has_memory then some (hyperlinks annotations) else none

abbrev pub Entries : Type 0
Entries = List (Bytes × Bytes)

-- `m[key] = value`.
unfoldable pub put : Bytes → Bytes → Entries → Entries
put key value [] = (key, value) ∷ []
put key value ((k, v) ∷ m) =
    let rest = put key value m in if same k key then (key, value) ∷ m else (k, v) ∷ rest

-- The pair that an element of the metadata stands for: a symbol, and a text.
unfoldable pub entry_of : Exp → Option (Bytes × Bytes)
entry_of (cons (symbol key) (cons (string value) _)) = some (key, value)
entry_of _ = none

abbrev put_entry : Option (Bytes × Bytes) → Entries → Entries
put_entry none m = m
put_entry (some (key, value)) m = put key value m

-- The inner loop.
unfoldable pub metadata_pairs : Exp → Entries → Entries
unfolding put entry_of
metadata_pairs (cons a q) m = metadata_pairs q (put_entry (entry_of a) m)
metadata_pairs _ m = m

unfoldable pub metadata_sub : Exp → Entries → Entries
unfolding metadata_pairs is_symbol caar cdar car cdr
metadata_sub (cons a p) m = metadata_sub p (
    if is_symbol (caar (cons a p)) (codes "metadata")
    then metadata_pairs (cdar (cons a p)) m
    else m)
metadata_sub _ m = m

unfoldable pub anno_get_metadata_keys : Bool → Exp → Option (List Bytes)
unfolding metadata_sub
anno_get_metadata_keys has_memory p =
    if has_memory then some (map (λ kv. kv.0) (metadata_sub p [])) else none

unfoldable pub find : Bytes → Entries → Option Bytes
find key [] = none
find key ((k, v) ∷ m) = let rest = find key m in if same k key then some v else rest

-- A text as the C string that `miniexp_to_str` gives.
abbrev pub c_text : Option Bytes → Option Bytes
c_text none = none
c_text (some v) = some (c_str v)

unfoldable pub anno_get_metadata : Exp → Bytes → Option Bytes
unfolding metadata_sub find
anno_get_metadata p key = c_text (find key (metadata_sub p []))

abbrev text_or : Exp → Option Bytes → Option Bytes
text_or (string v) rest = some v
text_or _ rest = rest

unfoldable anno_get_xmp : Exp → Option Bytes
unfolding is_symbol nth car c_str
anno_get_xmp (cons a p) =
    let rest = anno_get_xmp p in
    if is_symbol (car a) (codes "xmp")
    then (elim (nth 1 a) [ string v ↦ some (c_str v) | _ ↦ rest ])
    else rest
anno_get_xmp _ = none
