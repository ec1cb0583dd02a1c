-- ===== src/Exp/Tests.antt =====
-- Concrete expressions, printed and read.
use readflex.Prelude.{
  length, ◌≤◌, ◌-◌, ◌≡◌, refl, true, false, Option, none, [], ◌∷◌, ◌++◌, Bytes, codes, same, arith,
  inl, pos, negsuc,
}
use readflex.Ctype.{xdigit_value, is_xdigit}
use readflex.Exp.{Exp, nil, cons, number, symbol, string, dummy}
use readflex.Exp.Number.{Double}
use readflex.Exp.Printer.{print}
use readflex.Exp.Reader.Fuel.{miniexp_read_r-enough}
use readflex.Exp.Reader.{read_miniexp, miniexp_read_r}
use readflex.Exp.Text.{Flags}
use readflex.Exp.Text.Utf8.{Decodes, char_utf8-append_utf8}
use readflex.Exp.Reader.RoundTrip.{miniexp_read_r-print}
use readflex.Exp.Reader.Readable.{Readable}
use readflex.Exp.Printer.{must_quote_symbol}
use readflex.Exp.Reader.{starts_hashes}
use readflex.Exp.Number.{fits_number}
use readflex.Json.{to_string, digits}

abbrev no_double : Bytes → Option Double
no_double s = none

abbrev plain : Flags
plain = record { print7bits = false; u4escape = false; u6escape = false; quotemoresymbols = false }

abbrev json : Flags
json = record { print7bits = true; u4escape = true; u6escape = false; quotemoresymbols = false }

abbrev page : Exp
page = cons (symbol (codes "page")) (
    cons (number (pos 0)) (
      cons (number (negsuc 11)) (
        cons (string (b'a' ∷ b'"' ∷ 0 ∷ b'7' ∷ 0xC3 ∷ 0xA9 ∷ []))
          (cons (symbol (codes "12")) (symbol (codes "x|y"))))))

test_print :
    print page no_double [] json ≡ codes "(page 0 -12 \"a\\\"\\0007\\u00E9\" |12| . |x||y|)"
unfolding print to_string digits xdigit_value
test_print = refl

test_read :
    miniexp_read_r no_double (codes " ) (page 0 -12 \"a\\\"\\0007\\u00E9\" |12| . |x||y|) 0")
    ≡ (page, codes " 0")
unfolding miniexp_read_r xdigit_value is_xdigit
test_read = refl

test_error : miniexp_read_r no_double (codes "(a . b c)\nrest") ≡ (dummy, codes "\nrest")
unfolding miniexp_read_r xdigit_value is_xdigit
test_error = refl

-- A name that starts with two hashes, and one that is a dot within a list, are printed as they are, and
-- are not read as symbols.
test_hashes :
    (print (symbol (codes "##a")) no_double [] plain ≡ codes "##a")
    × (miniexp_read_r no_double (codes "##a") ≡ (dummy, []))
unfolding print miniexp_read_r
test_hashes = (refl, refl)

abbrev dotted : Exp
dotted = cons (symbol (codes "a")) (cons (symbol (codes ".")) (cons (symbol (codes "b")) nil))

test_dot :
    (print dotted no_double [] plain ≡ codes "(a . b)")
    × (miniexp_read_r no_double (codes "(a . b)")
        ≡ (cons (symbol (codes "a")) (symbol (codes "b")), []))
unfolding print miniexp_read_r
test_dot = (refl, refl)

page-Readable : Readable no_double json page
unfolding must_quote_symbol starts_hashes same fits_number xdigit_value
page-Readable = (
  record { chars = (refl, (refl, (refl, (refl, tt)))); not_empty = omega arith; distinct = refl },
  (
    refl,
    (
      refl,
      (
        (
          omega arith,
          (omega arith, (omega arith, (omega arith, (omega arith, (omega arith, tt))))),
        ),
        (
          record { chars = (refl, (refl, tt)); not_empty = omega arith; distinct = refl },
          record { chars = (refl, (refl, (refl, tt))); not_empty = omega arith; distinct = refl },
        ),
      ),
    ),
  ),
)

miniexp_read_r-print_example :
    miniexp_read_r no_double (print page no_double [] json ++ codes " (next)")
    ≡ (page, codes " (next)")
miniexp_read_r-print_example =
    miniexp_read_r-print no_double json page [] (codes " (next)") page-Readable refl

char_utf8-append_utf8_example : Decodes 0x20AC (b'!' ∷ [])
char_utf8-append_utf8_example =
    char_utf8-append_utf8 0x20AC (b'!' ∷ [])
      (record { le_max = omega arith; no_surrogate = inl (omega arith) })

miniexp_read_r-enough_example :
    (read_miniexp 30 no_double (codes "(a b) c") ≡ miniexp_read_r no_double (codes "(a b) c"))
    × (length (miniexp_read_r no_double (codes "(a b) c")).1 ≤ length (codes "(a b) c") - 1)
miniexp_read_r-enough_example = miniexp_read_r-enough no_double 30 (codes "(a b) c") (omega arith)
