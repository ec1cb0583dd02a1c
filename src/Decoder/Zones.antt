-- ===== src/Decoder/Zones.antt =====
-- `pagetext_sub` and `ddjvu_document_get_pagetext` of ddjvuapi.cpp: the zones of a page's text as an
-- expression. `text` is `txt->textUTF8`. `DjVuTXT::decode` has checked that the text of each zone lies
-- in it, so that a start and a length are never negative (Text/Checked).
pub mod Places
use readflex.Exp.Lists.{miniexp_number, miniexp_substring, miniexp_reverse}
use readflex.Exp.{Exp, nil, cons, symbol}
use readflex.Prelude.{
  ℕ, zero, suc, ◌-◌, Bool, true, false, ◌&&◌, ◌||◌, Option, none, some, List, [], ◌∷◌, Bytes, codes,
  same, drop, get_or, ltb, ◌==◌, if◌then◌else◌, ℤ,
}

pub record GRect : Type 0 where
  pub xmin : ℤ
  pub ymin : ℤ
  pub xmax : ℤ
  pub ymax : ℤ

mutual
  -- `ztype`, `rect`, `text_start`, `text_length` and `children`.
  pub data Zone : Type 0 where
    zone : ℕ → GRect → ℕ → ℕ → Children → Zone

  pub data Children : Type 0 where
    no_more : Children
    more : Zone → Children → Children

-- `zone_names`: a name, the type of its zones, and their separator.
abbrev zone_names : List (Bytes × ℕ × ℕ)
zone_names =
    (codes "page", 1, 0)
    ∷ (codes "column", 2, 0x0b)
    ∷ (codes "region", 3, 0x1d)
    ∷ (codes "para", 4, 0x1f)
    ∷ (codes "line", 5, 0x0a)
    ∷ (codes "word", 6, b' ')
    ∷ (codes "char", 7, 0)
    ∷ []

-- The loop over `zinfo`: the name and the separator of a type.
unfoldable zone_info : List (Bytes × ℕ × ℕ) → ℕ → Option Bytes × ℕ
zone_info [] ztype = (none, 0)
zone_info ((name, type, separator) ∷ infos) ztype =
    if ztype == type then (some name, separator) else zone_info infos ztype

unfoldable pub zone_name : ℕ → Option Bytes
unfolding zone_info
zone_name ztype = (zone_info zone_names ztype).0

unfoldable pub separator : ℕ → ℕ
unfolding zone_info
separator ztype = (zone_info zone_names ztype).1

unfoldable is_finer : Children → ℕ → Bool
is_finer no_more detail = false
is_finer (more (zone ztype _ _ _ _) zones) detail = ltb detail ztype || is_finer zones detail

abbrev is_childless : Children → Bool
is_childless no_more = true
is_childless (more _ _) = false

-- `gather`: the zone is put out as one text.
unfoldable pub gather : Children → ℕ → Bool
unfolding is_finer
gather zones detail = is_childless zones || is_finer zones detail

-- The text of a zone, without its separator.
unfoldable pub zone_text : Bytes → ℕ → ℕ → ℕ → Exp
unfolding separator miniexp_substring
zone_text text ztype start length =
    let rest = drop start text in
    let ends = ltb 0 length && get_or rest (length - 1) 0 == separator ztype in
    miniexp_substring rest (if ends then length - 1 else length)

-- The head of a zone's expression, before what stands in it.
unfoldable pub zone_head : Bytes → GRect → Exp → Exp
unfolding miniexp_number
zone_head name rect p = cons (symbol name) (
    cons (miniexp_number rect.xmin) (
      cons (miniexp_number rect.ymin)
        (cons (miniexp_number rect.xmax) (cons (miniexp_number rect.ymax) p))))

abbrev pub name_zone : Option Bytes → GRect → Exp → Exp
name_zone none rect p = nil
name_zone (some name) rect p = zone_head name rect p

unfoldable mutual
  unfolding zone_head zone_name gather zone_text miniexp_reverse

  pub pagetext_sub : Bytes → Zone → ℕ → Exp
  pagetext_sub text (zone ztype rect start length zones) detail =
      let children = pagetext_loop text zones detail nil in
      name_zone (zone_name ztype) rect (
        miniexp_reverse
          (if gather zones detail then cons (zone_text text ztype start length) nil else children))

  -- The loop over the children, with the expressions so far.
  pub pagetext_loop : Bytes → Children → ℕ → Exp → Exp
  pagetext_loop text no_more detail p = p
  pagetext_loop text (more z zones) detail p =
      pagetext_loop text zones detail (cons (pagetext_sub text z detail) p)

-- The last type that the name stands for, and else characters.
unfoldable detail_of : List (Bytes × ℕ × ℕ) → Option Bytes → ℕ → ℕ
detail_of [] maxdetail detail = detail
detail_of (info ∷ infos) none detail = detail
detail_of ((name, type, _) ∷ infos) (some maxdetail) detail =
    detail_of infos (some maxdetail) (if same maxdetail name then type else detail)

-- The expression of `ddjvu_document_get_pagetext` for a page that is decoded and has a text.
unfoldable pub get_pagetext : Bytes → Zone → Option Bytes → Exp
unfolding pagetext_sub detail_of
get_pagetext text page maxdetail = pagetext_sub text page (detail_of zone_names maxdetail 7)
