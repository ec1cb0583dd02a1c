-- ===== src/Outline/Tests.antt =====
-- Concrete outlines and targets.
use readflex.Prelude.{
  ◌+◌, ◌*◌, ◌≤◌, ◌≡◌, refl, arith, true, none, some, [], ◌∷◌, Bytes, codes, length, pos, same,
}
use readflex.Exp.{Exp, nil, cons, symbol, string, symbolp, cdr}
use readflex.Failure.{ok}
use readflex.Json.{
  max_text_bytes, hex_digit, escape_byte, escape, json_string, digits, to_string, allocated,
}
use readflex.Outline.Limits.{outline-print_entries}
use readflex.Outline.Target.{IsPageOrNone, outline_page-range}
use readflex.Outline.Tree.{print_entry, items_tree, items_count, print_entries}
use readflex.Resource.{after, after_run, adopted}
use readflex.Json.Bounds.{quoted}
use readflex.Outline.Returns.{levels, outline_items_returns}
use readflex.Outline.{
  print_outline, Directory, skip_space, read_digits, after_sign, signed, strtol, is_target,
  find_page, numbered_page, named_page, outline_page, print_page, begin_item, end_item, items_of,
  outline_loop, outline_item, outline_items, outline,
}
use readflex.Page.{job_ok}
use readflex.TextLayer.{read_expression, expression}
use readflex.Wait.Tests.{at_once}
use readflex.Wait.{messages, drain, pass, wait_loop, wait_for}

abbrev pub directory : Directory
directory = record {
  pages = pos 3;
  files =
      record {
        status = job_ok;
        pageno = pos 2;
        id = some (codes "p3.djvu");
        name = none;
        title = none;
      }
      ∷ [];
}

abbrev pub item : Bytes → Bytes → Exp → Exp
item title target below = cons (string title) (cons (string target) below)

-- A chapter with a section, and an appendix that is named by its file.
abbrev pub contents : Exp
contents =
    cons (item (codes "One") (codes "#1") (cons (item (codes "Two") (codes "#9") nil) nil))
      (cons (item (codes "End") (codes "#p3.djvu") nil) nil)

abbrev pub printed : Bytes
printed =
    codes
      "[{\"title\":\"One\",\"page\":0,\"children\":[{\"title\":\"Two\",\"page\":null,\"children\":[]}]},{\"title\":\"End\",\"page\":2,\"children\":[]}]"

pub items : outline_items directory contents 0 0 ≡ ok (printed, 3)
unfolding outline_items items_of outline_loop outline_item begin_item end_item outline_page
    named_page numbered_page find_page is_target strtol signed after_sign read_digits skip_space
    print_page json_string escape escape_byte hex_digit to_string digits same
items = refl

outlined :
    (outline directory 5 (at_once (cons (symbol (codes "bookmarks")) contents)) true).result
    ≡ ok printed
unfolding outline print_outline after after_run adopted read_expression outline_items items_of
    outline_loop outline_item begin_item end_item outline_page named_page numbered_page find_page
    is_target strtol signed after_sign read_digits skip_space print_page json_string escape
    escape_byte hex_digit to_string digits same expression symbolp cdr allocated wait_for wait_loop
    pass messages drain
outlined = refl

outline-print_entries_example :
    (value : Exp) × (expression 5 (at_once (cons (symbol (codes "bookmarks")) contents)) ≡ ok value)
    × (printed ≡ print_entries (items_tree (cdr value) directory))
    × (length printed ≤ max_text_bytes * 4)
outline-print_entries_example =
    outline-print_entries directory 5 (at_once (cons (symbol (codes "bookmarks")) contents)) true
      outlined

outline_page-range_example : IsPageOrNone directory (outline_page directory (some (codes "#-7x")))
outline_page-range_example = outline_page-range directory (some (codes "#-7x"))

items_count-contents : items_count contents ≡ 3
unfolding items_count
items_count-contents = refl

levels-contents : levels contents ≡ 2
unfolding levels
levels-contents = refl

length-contents : length (print_entries (items_tree contents directory)) ≡ 120
unfolding print_entries items_tree print_entry quoted outline_page named_page numbered_page
    find_page is_target strtol signed after_sign read_digits skip_space print_page escape
    escape_byte hex_digit to_string digits same
length-contents = refl

outline_items_returns_example :
    outline_items directory contents 0 0
    ≡ ok (print_entries (items_tree contents directory), 0 + items_count contents)
outline_items_returns_example =
    outline_items_returns directory contents 0 0 (omega (arith, items_count-contents))
      (omega (arith, levels-contents)) (omega (arith, length-contents))
