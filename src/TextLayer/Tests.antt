-- ===== src/TextLayer/Tests.antt =====
-- The text of a concrete page.
use readflex.Prelude.{◌≡◌, refl, true, Bytes, codes, ℤ, pos}
use readflex.Exp.{Exp, car, nth, numberp, symbolp, to_int}
use readflex.Failure.{ok}
use readflex.Json.{hex_digit, escape_byte, escape, json_string, digits, to_string, allocated}
use readflex.Page.Tests.{two_pages}
use readflex.Page.{oriented_size, check_page, info_wait, is_bad_page, page_info}
use readflex.TextLayer.Returns.{IsText, text-IsText}
use readflex.Resource.{after, after_run, adopted}
use readflex.TextLayer.{
  read_expression, layer_text, expression, word_json, print_words, text_head, print_text, text,
}
use readflex.Wait.Tests.{at_once}
use readflex.Wait.{Wait, messages, drain, pass, wait_loop, wait_for}
use readflex.Words.Tests.{line}
use readflex.Words.{
  collect_words, collect_children, enter, visit, add_word, place, cut, rotate, clamp,
}

abbrev lines : ℤ → Wait Exp
lines page = at_once line

abbrev printed : Bytes
printed =
    codes
      "{\"width\":850,\"height\":1100,\"words\":[{\"text\":\"Hello\",\"x\":130,\"y\":940,\"width\":20,\"height\":60}],\"text\":\"Hello\"}"

returned : (text two_pages lines true (pos 1)).result ≡ ok printed
unfolding text layer_text after after_run adopted read_expression print_text text_head print_words
    word_json expression json_string escape escape_byte hex_digit to_string digits allocated
    page_info check_page info_wait is_bad_page oriented_size wait_for wait_loop pass messages drain
    collect_words collect_children enter visit add_word place cut rotate clamp nth car numberp
    symbolp to_int
returned = refl

text-IsText_example : IsText two_pages (lines (pos 1)) (pos 1) printed
text-IsText_example = text-IsText two_pages lines true (pos 1) returned
