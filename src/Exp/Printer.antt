-- ===== src/Exp/Printer.antt =====
-- `printer_t` of miniexp.cpp: `must_quote_symbol`, `mlput_quoted_symbol` and `print`, for an `io` with no
-- macro characters. `pname` is what the object's own printer gives. The plain printer never breaks a
-- line, so that `tab` has no use; and the cdrs of a tree never come back to it, so that no "..." is
-- printed.
use readflex.Ctype.{is_ascii, is_space, is_print}
use readflex.Prelude.{
  ℕ, suc, Bool, true, false, not, ◌||◌, Option, none, some, [], ◌∷◌, ◌++◌, Bytes, codes, ◌==◌,
  if◌then◌else◌, ℤ, pos, negsuc,
}
use readflex.Exp.{Exp, nil, cons, number, symbol, string, object, dummy}
use readflex.Exp.Number.{Double, str_looks_like_double, str_is_double}
use readflex.Exp.Text.{Flags, print_c_string}
use readflex.Json.{to_string}

-- A character that no plain symbol can hold.
unfoldable pub is_special : ℕ → Bool
is_special c =
    c == b'('
    || c == b')'
    || c == b'"'
    || c == b'|'
    || not (is_ascii c)
    || is_space c
    || not (is_print c)

unfoldable pub has_special : Bytes → Bool
has_special [] = false
has_special (c ∷ s) = is_special c || has_special s

abbrev is_some {ℓ} : {A : Type ℓ} → Option A → Bool
is_some none = false
is_some (some _) = true

unfoldable pub must_quote_symbol : (Bytes → Option Double) → Bytes → Flags → Bool
unfolding is_special has_special str_looks_like_double str_is_double
must_quote_symbol strtod s flags =
    has_special s
    || (if flags.quotemoresymbols
        then str_looks_like_double s
        else is_some (str_is_double strtod s))

-- The loop of `mlput_quoted_symbol`: a bar is doubled.
unfoldable pub double_bars : Bytes → Bytes
double_bars [] = []
double_bars (c ∷ s) = if c == b'|' then b'|' ∷ b'|' ∷ double_bars s else c ∷ double_bars s

unfoldable pub quoted_symbol : Bytes → Bytes
unfolding double_bars
quoted_symbol s = b'|' ∷ (double_bars s ++ b'|' ∷ [])

-- `%d`.
unfoldable pub print_int : ℤ → Bytes
print_int (pos n) = to_string n
print_int (negsuc n) = b'-' ∷ to_string (suc n)

unfoldable pub print_symbol : (Bytes → Option Double) → Bytes → Flags → Bytes
unfolding must_quote_symbol quoted_symbol
print_symbol strtod s flags = if must_quote_symbol strtod s flags then quoted_symbol s else s

-- `print`, and `print_tail` for the part of its loop behind the first element of a list.
unfoldable mutual
  unfolding print_int print_symbol print_c_string

  pub print : Exp → (Bytes → Option Double) → Bytes → Flags → Bytes
  print nil strtod pname flags = codes "()"
  print (number n) strtod pname flags = print_int n
  print (symbol s) strtod pname flags = print_symbol strtod s flags
  print dummy strtod pname flags = print_symbol strtod (codes "##(dummy)") flags
  print (string s) strtod pname flags = print_c_string s flags
  print object strtod pname flags = pname
  print (cons a d) strtod pname flags =
      b'(' ∷ (print a strtod pname flags ++ print_tail d strtod pname flags)

  pub print_tail : Exp → (Bytes → Option Double) → Bytes → Flags → Bytes
  print_tail nil strtod pname flags = b')' ∷ []
  print_tail (cons a d) strtod pname flags =
      b' ' ∷ (print a strtod pname flags ++ print_tail d strtod pname flags)
  print_tail (number n) strtod pname flags = codes " . " ++ (print_int n ++ b')' ∷ [])
  print_tail (symbol s) strtod pname flags =
      codes " . " ++ (print_symbol strtod s flags ++ b')' ∷ [])
  print_tail dummy strtod pname flags =
      codes " . " ++ (print_symbol strtod (codes "##(dummy)") flags ++ b')' ∷ [])
  print_tail (string s) strtod pname flags = codes " . " ++ (print_c_string s flags ++ b')' ∷ [])
  print_tail object strtod pname flags = codes " . " ++ (pname ++ b')' ∷ [])
