-- ===== src/Decoder/Bookmarks.antt =====
-- `outline_sub` of ddjvuapi.cpp. The bookmarks of the file stand in one list, each with the number of
-- those below it; `nav` is what stands from `pos` on.
pub mod Tree
pub mod Printed
use readflex.Exp.Lists.{miniexp_string, miniexp_reverse}
use readflex.Exp.{Exp, nil, cons, symbol}
use readflex.Prelude.{ℕ, zero, suc, List, [], ◌∷◌, Bytes, codes, length}

pub record BookMark : Type 0 where
  pub count : ℕ
  pub displayname : Bytes
  pub url : Bytes

-- What is put in front of `p` for a bookmark, with the loop's list of those below it.
unfoldable pub item : BookMark → Exp → Exp
unfolding miniexp_string miniexp_reverse
item entry q =
    cons (miniexp_string entry.displayname) (cons (miniexp_string entry.url) (miniexp_reverse q))

-- Each round takes a bookmark: their number is enough fuel.
unfoldable pub outline_rounds : ℕ → List BookMark → ℕ → Exp → Exp × List BookMark
unfolding item
outline_rounds (suc fuel) (entry ∷ nav) (suc count) p =
    let (q, rest) = outline_rounds fuel nav entry.count nil in
    outline_rounds fuel rest count (cons (item entry q) p)
outline_rounds _ nav count p = (p, nav)

unfoldable pub outline_sub : List BookMark → ℕ → Exp × List BookMark
unfolding outline_rounds miniexp_reverse
outline_sub nav count =
    let (p, rest) = outline_rounds (length nav) nav count nil in (miniexp_reverse p, rest)

-- The expression of `ddjvu_document_get_outline` for a document that is decoded and has bookmarks.
unfoldable pub get_outline : List BookMark → Exp
unfolding outline_sub
get_outline nav = cons (symbol (codes "bookmarks")) (outline_sub nav (length nav)).0
