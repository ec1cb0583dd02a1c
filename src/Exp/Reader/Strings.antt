-- ===== src/Exp/Reader/Strings.antt =====
-- `read_c_string` of miniexp.cpp behind the opening quote: what a quoted text and its escapes stand
-- for.
use readflex.Ctype.{is_ascii, is_print, is_octal, is_upper, is_xdigit, xdigit_value}
use readflex.Prelude.{
  ℕ, zero, suc, ◌+◌, ◌-◌, ◌*◌, ◌%◌, Bool, not, ◌&&◌, ◌||◌, Option, none, some, [], ◌∷◌, ◌++◌, Bytes,
  length, leb, ◌==◌, if◌then◌else◌,
}
use readflex.Exp.Text.{append_utf8}

abbrev pub is_newline : ℕ → Bool
is_newline c = c == 10 || c == 13

-- A line feed, a carriage return, or both.
unfoldable pub skip_newline : Bytes → Bytes
skip_newline [] = []
skip_newline (c ∷ []) = if is_newline c then [] else c ∷ []
skip_newline (c ∷ d ∷ s) =
    if is_newline c then if is_newline d && not (c == d) then s else d ∷ s else c ∷ d ∷ s

-- At most `n` digits, behind the value `x`.
unfoldable pub skip_octal : ℕ → ℕ → Bytes → ℕ × Bytes
skip_octal zero x s = (x, s)
skip_octal (suc n) x [] = (x, [])
skip_octal (suc n) x (c ∷ s) =
    let more = skip_octal n (x * 8 + (c - b'0')) s in if is_octal c then more else (x, c ∷ s)

unfoldable pub skip_hexadecimal : ℕ → ℕ → Bytes → ℕ × Bytes
skip_hexadecimal zero x s = (x, s)
skip_hexadecimal (suc n) x [] = (x, [])
skip_hexadecimal (suc n) x (c ∷ s) =
    let more = skip_hexadecimal n (x * 16 + xdigit_value c) s in
    if is_xdigit c && leb x 0x10fff then more else (x, c ∷ s)

-- The value of the digits behind "x" or "u", if there is one.
unfoldable pub hex_escape : ℕ → Bytes → Option ℕ × Bytes
unfolding skip_hexadecimal
hex_escape n [] = (none, [])
hex_escape n (c ∷ s) =
    if is_xdigit c
    then (let (x, s') = skip_hexadecimal n 0 (c ∷ s) in (some x, s'))
    else (none, c ∷ s)

abbrev is_high : ℕ → Bool
is_high x = leb 0xd800 x && leb x 0xdbff

abbrev is_low : ℕ → Bool
is_low x = leb 0xdc00 x && leb x 0xdfff

abbrev pair_of : ℕ → ℕ → ℕ
pair_of x z = 0x10000 + x % 1024 * 1024 + z % 1024

-- The number of digits that "u" and "U" take.
abbrev pub digits_of : ℕ → ℕ
digits_of d = if is_upper d then 6 else 4

-- The loop on surrogates: what it appends, the value of `x` behind it with the letter `d`, and the
-- stream. Each round takes a backslash: the length of the stream is enough fuel.
abbrev pub Surrogates : Type 0
Surrogates = Bytes × Option ℕ × ℕ × Bytes

abbrev pub after_out : Bytes → Surrogates → Surrogates
after_out out (more, x, d, s) = (out ++ more, x, d, s)

-- The next value `z`, behind the high surrogate `x`.
abbrev pub next_surrogate : (ℕ → ℕ → Bytes → Surrogates) → ℕ → ℕ → Option ℕ × Bytes → Surrogates
next_surrogate loop x d (none, s) = (append_utf8 x, none, d, s)
next_surrogate loop x d (some z, s) =
    if is_low z then ([], some (pair_of x z), d, s) else after_out (append_utf8 x) (loop z d s)

unfoldable pub surrogates : ℕ → ℕ → ℕ → Bytes → Surrogates
unfolding append_utf8 hex_escape
surrogates (suc fuel) x d (c ∷ e ∷ s) =
    let more = next_surrogate (surrogates fuel) x e (hex_escape (digits_of e) s) in
    if is_high x && c == b'\\' && (e == b'u' || e == b'U') then more else ([], some x, d, c ∷ e ∷ s)
surrogates _ x d s = ([], some x, d, s)

abbrev pub unicode_end : Surrogates → Bytes × Bytes
unicode_end (out, some x, d, s) = (out ++ append_utf8 x, s)
unicode_end (out, none, d, s) = (out ++ d ∷ [], s)

-- What the value behind the letter `d` gives; the letter itself, if there is none.
unfoldable pub unicode_value : ℕ → Option ℕ × Bytes → Bytes × Bytes
unfolding surrogates append_utf8
unicode_value d (none, s) = (d ∷ [], s)
unicode_value d (some x, s) = unicode_end (surrogates (length s) x d s)

-- Behind the "u" or "U" in `d`.
unfoldable pub unicode_body : ℕ → Bytes → Bytes × Bytes
unfolding unicode_value hex_escape
unicode_body d s = unicode_value d (hex_escape (digits_of d) s)

-- `tr2[i]` for the `i` with `c == tr1[i]`, and else `c`.
unfoldable pub letter_of : ℕ → ℕ
letter_of c =
    if c == b't'
    then 9
    else if c == b'n'
    then 10
    else if c == b'r'
    then 13
    else if c == b'b'
    then 8
    else if c == b'f'
    then 12
    else if c == b'v'
    then 11
    else if c == b'a'
    then 7
    else if c == b'e'
    then 27
    else c

abbrev pub x_end : ℕ → Bytes → Option ℕ × Bytes → Bytes × Bytes
x_end d s (some x, s') = (x ∷ [], s')
x_end d s (none, _) = (d ∷ [], s)

-- Behind a backslash: the bytes that are appended, and the stream behind the escape. At EOF, -1 is
-- appended to a text that is then thrown away.
unfoldable pub escape_body : Bytes → Bytes × Bytes
unfolding skip_newline skip_octal hex_escape unicode_body letter_of
escape_body [] = (0xff ∷ [], [])
escape_body (c ∷ s) =
    if is_newline c
    then ([], skip_newline (c ∷ s))
    else if is_octal c
    then (let (x, s') = skip_octal 3 0 (c ∷ s) in (x % 256 ∷ [], s'))
    else if c == b'x' || c == b'X'
    then x_end c s (hex_escape 2 s)
    else if c == b'u' || c == b'U'
    then unicode_body c s
    else (letter_of c ∷ [], s)

abbrev pub append_text : Bytes → Option Bytes × Bytes → Option Bytes × Bytes
append_text out (none, s) = (none, s)
append_text out (some t, s) = (some (out ++ t), s)

-- The loop over the text; nothing if there is an error. Each round takes a character or more: their
-- number is enough fuel.
unfoldable pub read_body : ℕ → Bytes → Option Bytes × Bytes
unfolding escape_body
read_body fuel [] = (none, [])
read_body zero (c ∷ s) = (none, [])
read_body (suc fuel) (c ∷ s) =
    let escaped = append_text (escape_body s).0 (read_body fuel (escape_body s).1) in
    let plain = append_text (c ∷ []) (read_body fuel s) in
    if is_ascii c && not (is_print c)
    then (none, c ∷ s)
    else if c == b'"'
    then (some [], s)
    else if c == b'\\'
    then escaped
    else plain
