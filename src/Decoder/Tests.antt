-- ===== src/Decoder/Tests.antt =====
-- Concrete bookmarks, zones and annotations.
use readflex.Decoder.Annotations.Modern.{anno_compat-anno_stream}
use readflex.Decoder.Annotations.{outside, anno_compat, anno_stream, get_annotations}
use readflex.Decoder.Bookmarks.Printed.{print_outline-listed}
use readflex.Decoder.Bookmarks.Tree.{Forest, listed, items, entries, get_outline-listed}
use readflex.Decoder.Bookmarks.{get_outline}
use readflex.Decoder.Documents.{answer, document_get_outline}
use readflex.Decoder.Keys.Last.{
  last_value, entries as metadata_entries, anno_get_metadata-last_value,
}
use readflex.Decoder.Keys.{c_text, anno_get_metadata}
use readflex.Decoder.Zones.Places.{HasSmall, IsSmall, zone_words, pagetext_sub-zone_words}
use readflex.Decoder.Zones.{Zone, zone, no_more, more, GRect, pagetext_sub}
use readflex.Exp.Lists.{list_before, c_str}
use readflex.Exp.Number.{Double, fits_number}
use readflex.Exp.{Exp, nil, cons, number, symbol, string, cdr}
use readflex.Failure.{ok}
use readflex.Outline.Tests.{directory, contents, printed, items as contents_printed}
use readflex.Outline.Tree.{print_entries}
use readflex.Json.{allocated}
use readflex.Outline.{print_outline}
use readflex.Page.Tests.{letter}
use readflex.Page.{job_ok}
use readflex.Prelude.{
  ℕ, ◌<◌, ◌≡◌, refl, arith, All, Bool, ltb, ◌&&◌, true, false, Option, none, some, [], ◌∷◌, Bytes,
  codes, same, pos,
}
use readflex.Words.Layer.{words_of}

-- A chapter with a section, and an appendix.
abbrev chapters : Forest
chapters =
    Forest.more (codes "One") (codes "#1")
      (Forest.more (codes "Two") (codes "#9") Forest.none Forest.none)
      (Forest.more (codes "End") (codes "#p3.djvu") Forest.none Forest.none)

test_outline :
    document_get_outline job_ok (answer (some (listed chapters)))
    ≡ cons (symbol (codes "bookmarks")) (
        cons
          (cons (string (codes "One")) (
            cons
              (string (codes "#1"))
              (cons (cons (string (codes "Two")) (cons (string (codes "#9")) nil)) nil)))
          (cons (cons (string (codes "End")) (cons (string (codes "#p3.djvu")) nil)) nil))
unfolding document_get_outline listed
test_outline = refl

get_outline-listed_example :
    get_outline (listed chapters)
    ≡ cons (symbol (codes "bookmarks")) (list_before (items chapters) nil)
get_outline-listed_example = get_outline-listed chapters

chapters_are_contents : cdr (get_outline (listed chapters)) ≡ contents
unfolding get_outline listed cdr
chapters_are_contents = refl

chapters-printed : print_outline directory true (get_outline (listed chapters)) ≡ ok printed
unfolding print_outline allocated
chapters-printed = rw (chapters_are_contents, contents_printed) refl

print_outline-listed_example : printed ≡ print_entries (entries chapters directory)
print_outline-listed_example = print_outline-listed chapters directory true chapters-printed

-- A line of two words.
abbrev rect_of : ℕ → ℕ → ℕ → ℕ → GRect
rect_of a b c d = record { xmin = pos a; ymin = pos b; xmax = pos c; ymax = pos d }

abbrev line : Zone
line = zone 5 (rect_of 0 0 1100 850) 0 12 (
    more (zone 6 (rect_of 100 700 160 720) 0 6 no_more)
      (more (zone 6 (rect_of 200 700 260 720) 6 6 no_more) no_more))

test_pagetext :
    pagetext_sub (codes "Hello there\n") line 6
    ≡ cons (symbol (codes "line")) (
        cons (number (pos 0)) (
          cons (number (pos 0)) (
            cons (number (pos 1100)) (
              cons (number (pos 850)) (
                cons
                  (cons (symbol (codes "word")) (
                    cons (number (pos 100)) (
                      cons (number (pos 700)) (
                        cons
                          (number (pos 160))
                          (cons (number (pos 720)) (cons (string (codes "Hello")) nil))))))
                  (cons
                    (cons (symbol (codes "word")) (
                      cons (number (pos 200)) (
                        cons (number (pos 700)) (
                          cons
                            (number (pos 260))
                            (cons (number (pos 720)) (cons (string (codes "there\n")) nil))))))
                    nil))))))
unfolding pagetext_sub
test_pagetext = refl

small : (a b c d : ℕ) → a < 2000 → b < 2000 → c < 2000 → d < 2000 → IsSmall (rect_of a b c d)
unfolding fits_number
small a b c d ha hb hc hd = record {
  xmin_fits = ground arith;
  ymin_fits = ground arith;
  xmax_fits = ground arith;
  ymax_fits = ground arith;
}

line-HasSmall : HasSmall line
line-HasSmall = (
  small 0 0 1100 850 (omega arith) (omega arith) (omega arith) (omega arith),
  (
    (small 100 700 160 720 (omega arith) (omega arith) (omega arith) (omega arith), tt),
    ((small 200 700 260 720 (omega arith) (omega arith) (omega arith) (omega arith), tt), tt),
  ),
)

pagetext_sub-zone_words_example :
    words_of (pagetext_sub (codes "Hello there\n") line 6) letter
    ≡ zone_words (codes "Hello there\n") letter 6 line
pagetext_sub-zone_words_example =
    pagetext_sub-zone_words (codes "Hello there\n") letter 6 line line-HasSmall

-- An annotation in the older syntax: a backslash is no escape in it.
abbrev old : Bytes
old = codes "(metadata (title \"a\\q\n\"))"

abbrev no_double : Bytes → Option Double
no_double s = none

test_annotations :
    get_annotations no_double (old ∷ codes "(mode color) (xmp \"x\")" ∷ [])
    ≡ cons
        (cons
          (symbol (codes "metadata"))
          (cons (cons (symbol (codes "title")) (cons (string (codes "a\\q\n")) nil)) nil))
        (cons
          (cons (symbol (codes "mode")) (cons (symbol (codes "color")) nil))
          (cons (cons (symbol (codes "xmp")) (cons (string (codes "x")) nil)) nil))
unfolding get_annotations
test_annotations = refl

abbrev are_bytes : Bytes → Bool
are_bytes [] = true
are_bytes (c ∷ s) = ltb c 256 && are_bytes s

bytes_below : (s : Bytes) → are_bytes s ≡ true → All (λ c. c < 256) s
bytes_below [] h = tt
bytes_below (c ∷ s) h = (ground arith, bytes_below s (ground arith))

is_bytes : All (λ c. c < 256) old
is_bytes = bytes_below old refl

anno_compat-anno_stream_example : anno_compat (anno_stream (anno_compat old) outside old) ≡ false
anno_compat-anno_stream_example = anno_compat-anno_stream old is_bytes

-- Two metadata, of which the second counts.
abbrev titles : Exp
titles =
    cons
      (cons (symbol (codes "metadata"))
        (cons (cons (symbol (codes "title")) (cons (string (codes "A")) nil)) nil))
      (cons
        (cons (symbol (codes "metadata"))
          (cons (cons (symbol (codes "title")) (cons (string (codes "B")) nil)) nil))
        nil)

test_metadata : anno_get_metadata titles (codes "title") ≡ some (codes "B")
unfolding anno_get_metadata same c_str
test_metadata = refl

anno_get_metadata-last_value_example :
    anno_get_metadata titles (codes "title")
    ≡ c_text (last_value (codes "title") (metadata_entries titles))
anno_get_metadata-last_value_example = anno_get_metadata-last_value titles (codes "title")
