-- ===== src/Exp/Reader.antt =====
-- The reader of miniexp.cpp, from `skip_blank` to `miniexp_read_r`, for an `io` with no macro characters,
-- as the decoder sets it up. The stream is the list of the character in `c` and of those that `fgetc`
-- will give; it is empty at EOF. Then `c = fgetc()` drops the first one, and an `ungetc` after it takes
-- that back. A result is paired with the stream behind it.
mod Strings
pub mod Escapes
pub mod Texts
pub mod Progress
pub mod Fuel
pub mod Words
pub mod Numbers
pub mod Symbols
pub mod Atoms
pub mod Readable
pub mod Rounds
pub mod RoundTrip
unfoldable pub use Strings.{
  skip_newline, skip_octal, skip_hexadecimal, hex_escape, surrogates, unicode_value, unicode_body,
  letter_of, escape_body, read_body,
}
use readflex.Ctype.{is_ascii, is_space, is_print}
use readflex.Prelude.{
  ℕ, zero, suc, ◌+◌, ◌*◌, Bool, true, false, not, ◌&&◌, ◌||◌, Option, none, some, List, [], ◌∷◌,
  ◌++◌, Bytes, length, ◌==◌, if◌then◌else◌,
}
use readflex.Exp.{Exp, nil, cons, number, symbol, string, object, dummy}
use readflex.Exp.Number.{Double, double, str_is_double}

unfoldable pub skip_blank : Bytes → Bytes
skip_blank [] = []
skip_blank (c ∷ s) = let rest = skip_blank s in if is_space c then rest else c ∷ s

-- The loop of `read_error`, which gives `miniexp_dummy`.
unfoldable pub skip_line : Bytes → Bytes
skip_line [] = []
skip_line (c ∷ s) = let rest = skip_line s in if c == 10 then c ∷ s else rest

abbrev pub text_or_error : Option Bytes × Bytes → Exp × Bytes
text_or_error (some t, s) = (string t, s)
text_or_error (none, s) = (dummy, skip_line s)

-- Behind the opening quote.
unfoldable pub read_c_string : Bytes → Exp × Bytes
unfolding read_body skip_line
read_c_string s = text_or_error (read_body (length s) s)

abbrev pub cons_char : ℕ → Option Bytes × Bytes → Option Bytes × Bytes
cons_char c (none, s) = (none, s)
cons_char c (some t, s) = (some (c ∷ t), s)

-- Behind the opening bar: two bars stand for one.
unfoldable pub read_bars : Bytes → Option Bytes × Bytes
read_bars [] = (none, [])
read_bars (c ∷ []) =
    if c == b'|'
    then (some [], [])
    else (none, if is_ascii c && not (is_print c) then c ∷ [] else [])
read_bars (c ∷ d ∷ s) =
    let bar = cons_char c (read_bars s) in
    let plain = cons_char c (read_bars (d ∷ s)) in
    if c == b'|'
    then if d == b'|' then bar else (some [], d ∷ s)
    else if is_ascii c && not (is_print c)
    then (none, c ∷ d ∷ s)
    else plain

abbrev pub symbol_or_error : Option Bytes × Bytes → Exp × Bytes
symbol_or_error (some t, s) = (symbol t, s)
symbol_or_error (none, s) = (dummy, skip_line s)

unfoldable pub read_quoted_symbol : Bytes → Exp × Bytes
unfolding read_bars skip_line
read_quoted_symbol s = symbol_or_error (read_bars s)

-- A character that ends a plain symbol.
unfoldable pub ends_word : ℕ → Bool
ends_word c =
    c == b'('
    || c == b')'
    || c == b'|'
    || c == b'"'
    || is_space c
    || not (is_ascii c)
    || not (is_print c)

abbrev pub cons_word : ℕ → Bytes × Bytes → Bytes × Bytes
cons_word c (w, s) = (c ∷ w, s)

unfoldable pub read_word : Bytes → Bytes × Bytes
unfolding ends_word
read_word [] = ([], [])
read_word (c ∷ s) =
    let more = cons_word c (read_word s) in if ends_word c then ([], c ∷ s) else more

unfoldable pub word_value : (Bytes → Option Double) → Bytes → Exp
unfolding str_is_double double
word_value strtod w = elim (str_is_double strtod w) [ some x ↦ double x | none ↦ symbol w ]

abbrev pub word_or_error : (Bytes → Option Double) → Bytes × Bytes → Exp × Bytes
word_or_error strtod ([], s) = (dummy, skip_line s)
word_or_error strtod (c ∷ w, s) = (word_value strtod (c ∷ w), s)

unfoldable pub read_symbol_or_number : (Bytes → Option Double) → Bytes → Exp × Bytes
unfolding read_word word_value skip_line
read_symbol_or_number strtod s = word_or_error strtod (read_word s)

abbrev pub is_dummy : Exp → Bool
is_dummy dummy = true
is_dummy _ = false

-- `c == '.'` with a blank behind it.
unfoldable pub starts_dot : Bytes → Bool
starts_dot (c ∷ d ∷ s) = c == b'.' && is_space d
starts_dot _ = false

unfoldable pub starts_hashes : Bytes → Bool
starts_hashes (c ∷ d ∷ s) = c == b'#' && d == b'#'
starts_hashes _ = false

-- The end of a list: the expression in its last cdr, if the parenthesis follows.
unfoldable pub close_list : Exp → Bytes → Option Exp × Bytes
unfolding skip_line
close_list e [] = (none, [])
close_list e (c ∷ s) = if c == b')' then (some e, s) else (none, skip_line (c ∷ s))

abbrev pub cons_list : Exp → Option Exp × Bytes → Option Exp × Bytes
cons_list e (none, s) = (none, s)
cons_list e (some l, s) = (some (cons e l), s)

abbrev pub list_or_error : Option Exp × Bytes → Exp × Bytes
list_or_error (none, s) = (dummy, s)
list_or_error (some l, s) = (l, s)

-- Behind the dot of a pair: an expression, or nothing.
abbrev pub read_cdr : (Bytes → Exp × Bytes) → Bytes → Option Exp × Bytes
read_cdr read [] = (let (e, s) = read [] in close_list e (skip_blank s))
read_cdr read (c ∷ s) =
    if c == b')'
    then (some nil, s)
    else (let (e, s') = read (c ∷ s) in close_list e (skip_blank s'))

-- The cases of `read_miniexp`, with the blanks skipped; `again` and `list` are the calls at what
-- stands behind the character.
unfoldable pub read_here :
    (Bytes → Exp × Bytes)
    → (Bytes → Option Exp × Bytes)
    → (Bytes → Option Double)
    → Bytes
    → Exp × Bytes
unfolding skip_line read_c_string read_quoted_symbol read_symbol_or_number starts_hashes
read_here again list strtod [] = (dummy, [])
read_here again list strtod (c ∷ s) =
    if c == b')'
    then again s
    else if c == b'('
    then list_or_error (list s)
    else if c == b'"'
    then read_c_string s
    else if c == b'|'
    then read_quoted_symbol s
    else if starts_hashes (c ∷ s)
    then (dummy, skip_line s)
    else read_symbol_or_number strtod (c ∷ s)

-- One round of the loop over the elements of a list, with the blanks skipped.
unfoldable pub read_element :
    (Bytes → Exp × Bytes) → (Bytes → Option Exp × Bytes) → Bytes → Option Exp × Bytes
unfolding skip_line skip_blank starts_dot close_list
read_element read more [] = (none, [])
read_element read more (c ∷ s) =
    if c == b')'
    then (some nil, s)
    else if starts_dot (c ∷ s)
    then read_cdr read (skip_blank s)
    else (let (e, s') = read (c ∷ s) in
        if is_dummy e then (none, skip_line s') else cons_list e (more s'))

-- `read_miniexp`, and the loop of its case for a list. Out of fuel, they stop as at the end of the
-- input. A character takes two calls at most, so that `miniexp_read_r` has enough fuel.
unfoldable mutual
  unfolding skip_blank read_here read_element

  pub read_miniexp : ℕ → (Bytes → Option Double) → Bytes → Exp × Bytes
  read_miniexp zero strtod s = (dummy, [])
  read_miniexp (suc fuel) strtod s =
      read_here (read_miniexp fuel strtod) (read_list fuel strtod) strtod (skip_blank s)

  pub read_list : ℕ → (Bytes → Option Double) → Bytes → Option Exp × Bytes
  read_list zero strtod s = (none, [])
  read_list (suc fuel) strtod s =
      read_element (read_miniexp fuel strtod) (read_list fuel strtod) (skip_blank s)

unfoldable pub miniexp_read_r : (Bytes → Option Double) → Bytes → Exp × Bytes
unfolding read_miniexp
miniexp_read_r strtod s = read_miniexp (2 * length s + 2) strtod s
