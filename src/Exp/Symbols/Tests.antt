-- ===== src/Exp/Symbols/Tests.antt =====
-- A table of ten symbols, which the next one makes grow.
use readflex.Exp.Symbols.Interned.{miniexp_symbol_iff, table_after}
use readflex.Exp.Symbols.{symtable, miniexp_symbol, hashcode}
use readflex.Prelude.{ℕ, ◌≡◌, ◌↔◌, refl, true, some, List, [], ◌∷◌, Bytes, codes, length, same}

abbrev ten_names : List Bytes
ten_names =
    codes "page"
    ∷ codes "column"
    ∷ codes "region"
    ∷ codes "para"
    ∷ codes "line"
    ∷ codes "word"
    ∷ codes "char"
    ∷ codes "page"
    ∷ codes "url"
    ∷ codes "maparea"
    ∷ codes "rect"
    ∷ []

-- Seven chains are enough for ten symbols, but not for eleven.
ten_symbols : (table_after true ten_names symtable).nelems ≡ 10
unfolding symtable miniexp_symbol hashcode same
ten_symbols = refl

more_chains : length (table_after true (codes "oval" ∷ ten_names) symtable).buckets ≡ 13
unfolding symtable miniexp_symbol hashcode same
more_chains = refl

miniexp_symbol_iff_example :
    let t = table_after true ten_names symtable in
    let (first, t') = miniexp_symbol true (codes "oval") t in
    let (second, _) =
      miniexp_symbol true (codes "word") (table_after true (codes "line" ∷ []) t') in
    (v : ℕ) × ((w : ℕ) × ((first ≡ some v)
        × ((second ≡ some w) × ((v ≡ w) ↔ (codes "oval" ≡ codes "word")))))
miniexp_symbol_iff_example =
    miniexp_symbol_iff true ten_names (codes "line" ∷ []) (codes "oval") (codes "word")
