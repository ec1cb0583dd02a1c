-- ===== src/Outline.antt =====
-- `outline_page` and `outline_items` of pagecraft_djvu.cpp: the outline of a document as JSON. What the
-- decoder says of the document's pages and files is a parameter.
pub mod Number
pub mod Target
pub mod Tree
pub mod Limits
pub mod Returns
pub mod Named
pub mod Tests
use readflex.Prelude.{
  ℕ, zero, suc, ◌+◌, ◌-◌, ◌*◌, ◌^◌, ◌≤◌, min, Bool, true, false, not, ◌&&◌, ◌||◌, Option, none,
  some, List, [], ◌∷◌, ◌++◌, Bytes, codes, length, same, ltb, leb, ◌==◌, if◌then◌else◌, ℤ, pos,
  negsuc, pos_part, ltb_ℤ, leb_ℤ,
}
use readflex.Container.{max_nodes}
use readflex.Ctype.{is_digit, is_space}
use readflex.Exp.{Exp, nil, cons, number, symbol, string, object, nth, cdr}
use readflex.Failure.{Result, ok, err, ◌>>=◌, ◌>>◌, reject, outline_depth, outline_size}
use readflex.Json.{max_text_bytes, json_string, allocated, to_string}
use readflex.Page.{Status, is_ok}
use readflex.TextLayer.{read_expression, is_kept}
use readflex.Resource.{Run, after_run, adopted, expression_1}
use readflex.Wait.{Wait, is_empty}

-- What `ddjvu_document_get_fileinfo` reports of one component file. A text may be null.
pub record FileInfo : Type 0 where
  pub status : Status
  pub pageno : ℤ
  pub id : Option Bytes
  pub name : Option Bytes
  pub title : Option Bytes

pub record Directory : Type 0 where
  pub pages : ℤ
  pub files : List FileInfo

-- The result of `std::strtol(value, &end, 10)`: `rest` is the text at `end`, and `found` whether `end`
-- has moved.
pub record Parsed : Type 0 where
  pub value : ℤ
  pub rest : Bytes
  pub found : Bool

pub skip_space : Bytes → Bytes
skip_space [] = []
skip_space (c ∷ cs) = let rest = skip_space cs in if is_space c then rest else c ∷ cs

pub read_digits : ℕ → Bytes → ℕ × Bytes
read_digits n [] = (n, [])
read_digits n (c ∷ cs) =
    let rest = read_digits (n * 10 + (c - b'0')) cs in if is_digit c then rest else (n, c ∷ cs)

abbrev starts_with_digit : Bytes → Bool
starts_with_digit [] = false
starts_with_digit (c ∷ cs) = is_digit c

-- A value out of the range of `long` is its nearest end.
abbrev pub long_max : ℕ
long_max = 2 ^ 63 - 1

-- `-m`, down to -(2 ^ 63).
abbrev negative : ℕ → ℤ
negative zero = pos 0
negative (suc m) = negsuc (min m long_max)

pub after_sign : Bytes → Bool → Bytes → Parsed
after_sign value is_negative text =
    let (n, rest) = read_digits 0 text in
    if starts_with_digit text
    then record {
      value = if is_negative then negative n else pos (min n long_max);
      rest = rest;
      found = true;
    }
    else record { value = pos 0; rest = value; found = false }

pub signed : Bytes → Bytes → Parsed
unfolding after_sign
signed value [] = after_sign value false []
signed value (c ∷ cs) =
    if c == b'-'
    then after_sign value true cs
    else if c == b'+'
    then after_sign value false cs
    else after_sign value false (c ∷ cs)

pub strtol : Bytes → Parsed
strtol value = signed value (skip_space value)

abbrev names : Option Bytes → Bytes → Bool
names none value = false
names (some s) value = same s value

pub is_target : Directory → Bytes → FileInfo → Bool
is_target doc value info =
    is_ok info.status
    && leb_ℤ (pos 0) info.pageno
    && ltb_ℤ info.pageno doc.pages
    && (names info.id value || names info.name value || names info.title value)

-- The loop over the files.
pub find_page : Directory → Bytes → List FileInfo → ℤ
find_page doc value [] = negsuc 0
find_page doc value (info ∷ files) =
    if is_target doc value info then info.pageno else find_page doc value files

-- `number >= 1 && number <= pages ? number - 1 : -1`.
pub numbered_page : Directory → ℤ → ℤ
numbered_page doc n =
    if leb_ℤ (pos 1) n && leb_ℤ n doc.pages then pos (pos_part n - 1) else negsuc 0

-- What follows the `#` of a target: a page number, or the name of a file.
pub named_page : Directory → Bytes → ℤ
named_page doc value =
    let n = strtol value in
    if n.found && is_empty n.rest then numbered_page doc n.value else find_page doc value doc.files

pub outline_page : Directory → Option Bytes → ℤ
outline_page doc none = negsuc 0
outline_page doc (some []) = negsuc 0
outline_page doc (some (c ∷ value)) = if c == b'#' then named_page doc value else negsuc 0

-- The locals of one run of the loop, and the count that all runs share.
pub record Out : Type 0 where
  pub result : Bytes
  pub comma : Bool
  pub visited : ℕ

abbrev pub opening : ℕ → Out
opening visited = record { result = codes "["; comma = false; visited = visited }

abbrev pub target_of : Directory → Exp → ℤ
target_of doc (string t) = outline_page doc (some t)
target_of doc _ = negsuc 0

pub print_page : ℤ → Bytes
print_page (pos n) = to_string n
print_page (negsuc n) = codes "null"

-- The comma, the title and the page of an item.
pub begin_item : Directory → Bytes → Exp → Out → Result Out
begin_item doc title target out = do
  let start = if out.comma then out.result ++ codes "," else out.result
  text ← json_string title
  ok (record out {
    result =
        start
        ++ (codes "{\"title\":" ++ text ++ codes ",\"page\":")
        ++ print_page (target_of doc target);
    comma = true;
  })

-- The children of an item, printed by a run of their own.
pub end_item : Out → Bytes × ℕ → Out
end_item out (children, visited) = record out {
  result = out.result ++ (codes ",\"children\":" ++ children ++ codes "}");
  visited = visited;
}

-- `outline_items` at a depth, around its loop.
pub items_of : ℕ → Result Out → Result (Bytes × ℕ)
items_of depth loop = do
  reject (ltb 64 depth) outline_depth
  out ← loop
  ok (out.result ++ codes "]", out.visited)

abbrev pub too_large : Out → Bool
too_large out = ltb max_text_bytes (length out.result)

mutual
  pub outline_loop : Exp → Directory → Out → ℕ → Result Out
  outline_loop (cons item rest) doc out depth =
      reject (leb max_nodes out.visited) outline_size
      >> outline_item item doc (record out { visited = out.visited + 1 }) depth
      >>= λ out'. reject (too_large out') outline_size >> outline_loop rest doc out' depth
  outline_loop _ doc out depth = ok out

  pub outline_item : Exp → Directory → Out → ℕ → Result Out
  outline_item (cons (string title) (cons target children)) doc out depth =
      begin_item doc title target out >>= λ out'.
      items_of (depth + 1) (outline_loop children doc (opening out'.visited) (depth + 1))
      >>= λ printed. ok (end_item out' printed)
  outline_item (cons (string title) _) doc out depth = begin_item doc title nil out >>= λ out'.
      items_of (depth + 1) (ok (opening out'.visited)) >>= λ printed. ok (end_item out' printed)
  outline_item _ doc out depth = ok out

pub outline_items : Directory → Exp → ℕ → ℕ → Result (Bytes × ℕ)
outline_items doc items visited depth =
    items_of depth (outline_loop items doc (opening visited) depth)

-- `pagecraft_djvu_outline`: the items stand behind the head of the expression.
unfoldable pub print_outline : Directory → Bool → Exp → Result Bytes
print_outline doc has_memory value = do
  printed ← outline_items doc (cdr value) 0 0
  allocated has_memory printed.0

-- The expression is released at the end of the function.
unfoldable pub outline : Directory → ℕ → Wait Exp → Bool → Run Bytes
outline doc timeout_ms outline_polls has_memory =
    after_run (read_expression expression_1 is_kept timeout_ms outline_polls) λ value.
      adopted expression_1 (record { result = print_outline doc has_memory value; events = [] })
