-- ===== src/Decoder/Bookmarks/Tree.antt =====
-- The bookmarks as a tree: how they stand in the file, and how the adapter sees them.
use readflex.Decoder.Bookmarks.{BookMark, item, outline_rounds, outline_sub, get_outline}
use readflex.Exp.Lists.{list_before, reverse_onto, reverse-reverse_onto, miniexp_string, c_str}
use readflex.Exp.{Exp, nil, cons, string, symbol}
use readflex.Outline.Tree.{Entries, entry, items_tree}
use readflex.Outline.{Directory, target_of}
use readflex.Prelude.{
  ℕ, zero, suc, ◌+◌, ◌-◌, ◌≤◌, ◌≡◌, refl, sym, ap, ◌∙◌, arith, List, [], ◌∷◌, ◌++◌, append_assoc,
  append-nil, Bytes, codes, length, length-append,
}

-- Bookmarks with their names, their targets and those below them, and the bookmarks behind.
pub data Forest : Type 0 where
  none : Forest
  more : Bytes → Bytes → Forest → Forest → Forest

unfoldable roots : Forest → ℕ
roots none = 0
roots (more name url below behind) = suc (roots behind)

-- The list in the file: a bookmark, those below it, and those behind it.
unfoldable pub listed : Forest → List BookMark
unfolding roots
listed none = []
listed (more name url below behind) =
    record { count = roots below; displayname = name; url = url } ∷ (listed below ++ listed behind)

unfoldable pub items : Forest → List Exp
unfolding c_str
items none = []
items (more name url below behind) =
    cons (string (c_str name)) (cons (string (c_str url)) (list_before (items below) nil))
    ∷ items behind

-- The loop has taken the bookmarks of `forest` and is before `rest`.
abbrev Taken : ℕ → ℕ → Forest → List BookMark → ℕ → Exp → Type 0
Taken fuel count forest rest left p =
    (fuel' : ℕ) × (length rest ≤ fuel')
    × (outline_rounds fuel (listed forest ++ rest) count p
        ≡ outline_rounds fuel' rest left (reverse_onto (list_before (items forest) nil) p))

no_rounds : (fuel : ℕ) (rest : List BookMark) (p : Exp) → outline_rounds fuel rest 0 p ≡ (p, rest)
unfolding outline_rounds
no_rounds zero rest p = refl
no_rounds (suc fuel) [] p = refl
no_rounds (suc fuel) (b ∷ rest) p = refl

no_bookmarks : (fuel count : ℕ) (p : Exp) → outline_rounds fuel [] count p ≡ (p, [])
unfolding outline_rounds
no_bookmarks zero count p = refl
no_bookmarks (suc fuel) count p = refl

item-items :
    (name url : Bytes) (n : ℕ) (below : List Exp)
    → item
        (record { count = n; displayname = name; url = url })
        (reverse_onto (list_before below nil) nil)
      ≡ cons (string (c_str name)) (cons (string (c_str url)) (list_before below nil))
unfolding item miniexp_string
item-items name url n below =
    ap (λ l. cons (string (c_str name)) (cons (string (c_str url)) l)) (reverse-reverse_onto below)

-- A round of the loop.
round :
    (fuel count : ℕ) (b : BookMark) (nav rest : List BookMark) (p q : Exp)
    → outline_rounds fuel nav b.count nil ≡ (q, rest)
    → outline_rounds (suc fuel) (b ∷ nav) (suc count) p
      ≡ outline_rounds fuel rest count (cons (item b q) p)
unfolding outline_rounds
round fuel count b nav rest p q e = rw e refl

-- One bookmark, with those below it, and the rest of the loop.
more-Taken :
    (name url : Bytes) (below behind : Forest) (fuel count left : ℕ) (rest : List BookMark)
    (p : Exp)
    → Taken fuel (roots below) below (listed behind ++ rest) 0 nil
    → Taken fuel count behind rest left (
        cons
          (cons (string (c_str name)) (cons (string (c_str url)) (list_before (items below) nil)))
          p)
    → Taken (suc fuel) (suc count) (more name url below behind) rest left p
unfolding listed items reverse_onto
more-Taken name url below behind fuel count left rest p (f, _, e) (f', room, e') =
    let b : BookMark = record { count = roots below; displayname = name; url = url } in
    let nav = listed below ++ (listed behind ++ rest) in
    let q = reverse_onto (list_before (items below) nil) nil in
    let first =
      round fuel count b nav (listed behind ++ rest) p q
        (e ∙ no_rounds f (listed behind ++ rest) q) in
    let same =
      ap (λ i. outline_rounds fuel (listed behind ++ rest) count (cons i p))
        (item-items name url (roots below) (items below)) in
    (f', room, rw (append_assoc (listed below) (listed behind) rest) (first ∙ same ∙ e'))

rounds-Taken :
    (forest : Forest) (fuel count left : ℕ) (rest : List BookMark) (p : Exp)
    → count ≡ roots forest + left
    → length (listed forest ++ rest) ≤ fuel
    → Taken fuel count forest rest left p
unfolding listed roots
rounds-Taken none fuel count left rest p e h = (
  fuel,
  h,
  unfold items reverse_onto in ap (λ n. outline_rounds fuel rest n p) (omega (arith, e)),
)
rounds-Taken (more name url below behind) zero count left rest p e h = absurd (omega arith)
rounds-Taken (more name url below behind) (suc fuel) zero left rest p e h = absurd (omega arith)
rounds-Taken (more name url below behind) (suc fuel) (suc count) left rest p e h =
    let room = length-append (listed below) (listed behind) in
    let all = length-append (listed below ++ listed behind) rest in
    let last = length-append (listed behind) rest in
    more-Taken name url below behind fuel count left rest p
      (rounds-Taken below fuel (roots below) 0 (listed behind ++ rest) nil (omega arith)
        (omega (arith, h, room, all, last, length-append (listed below) (listed behind ++ rest))))
      (rounds-Taken behind fuel count left rest _ (omega (arith, e))
        (omega (arith, h, room, all, last)))

roots-le : (forest : Forest) → roots forest ≤ length (listed forest)
unfolding roots listed
roots-le none = omega arith
roots-le (more name url below behind) =
    omega (arith, roots-le behind, length-append (listed below) (listed behind))

-- The bookmarks of a file, in the order of the tree, give the tree as an expression, with no name and no
-- target left out: each is cut at its first NUL.
pub get_outline-listed :
    (forest : Forest)
    → get_outline (listed forest)
      ≡ cons (symbol (codes "bookmarks")) (list_before (items forest) nil)
unfolding get_outline outline_sub
get_outline-listed forest =
    let nav = listed forest in
    let l = list_before (items forest) nil in
    let (f, _, e) =
      rounds-Taken forest (length nav) (length nav) (length nav - roots forest) [] nil
        (omega (arith, roots-le forest)) (ground (arith, append-nil nav)) in
    let all : outline_rounds (length nav) nav (length nav) nil ≡ (reverse_onto l nil, []) =
      ap (λ s. outline_rounds (length nav) s (length nav) nil) (sym (append-nil nav))
      ∙ e
      ∙ no_bookmarks f (length nav - roots forest) (reverse_onto l nil) in
    rw all (ap (cons (symbol (codes "bookmarks"))) (reverse-reverse_onto (items forest)))

-- The entries of the adapter's outline: a bookmark's target is looked up among the pages of `doc`.
unfoldable pub entries : Forest → Directory → Entries
unfolding c_str
entries none doc = Entries.none
entries (more name url below behind) doc =
    Entries.more (entry (c_str name) (target_of doc (string (c_str url))) (entries below doc))
      (entries behind doc)

pub items_tree-items :
    (forest : Forest) (doc : Directory)
    → items_tree (list_before (items forest) nil) doc ≡ entries forest doc
unfolding items_tree items entries
items_tree-items none doc = refl
items_tree-items (more name url below behind) doc =
    rw (items_tree-items below doc, items_tree-items behind doc) refl
