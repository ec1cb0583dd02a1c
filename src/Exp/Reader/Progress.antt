-- ===== src/Exp/Reader/Progress.antt =====
-- The reader takes characters off the stream, and puts none on it.
use readflex.Ctype.{is_ascii, is_print, is_octal, is_xdigit, xdigit_value}
use readflex.Exp.Reader.Strings.{
  skip_newline, skip_octal, skip_hexadecimal, hex_escape, digits_of, surrogates, next_surrogate,
  after_out, is_newline, x_end, Surrogates, unicode_end, unicode_value, unicode_body, letter_of,
  escape_body, read_body, append_text,
}
use readflex.Exp.Reader.{
  skip_blank, skip_line, read_bars, cons_char, read_word, read_c_string, read_quoted_symbol,
  text_or_error, symbol_or_error,
}
use readflex.Exp.Text.{append_utf8}
use readflex.Prelude.{
  ℕ, zero, suc, ◌+◌, ◌-◌, ◌*◌, ◌%◌, ◌≤◌, ◌≡◌, refl, ap, ◌∙◌, arith, Bool, true, false, Option, none,
  some, [], ◌∷◌, Bytes, length, leb, not, ◌==◌, ◌&&◌, ◌||◌, if◌then◌else◌,
}

if-measure :
    {A : Type 0} (f : A → ℕ) (b : Bool) (x y : A) (n : ℕ)
    → f x ≤ n
    → f y ≤ n
    → f (if b then x else y) ≤ n
if-measure f true x y n h h' = h
if-measure f false x y n h h' = h'

-- Of two results, each leaves `n` characters at most.
pub if-le {ℓ} :
    {A : Type ℓ} (b : Bool) (x y : A × Bytes) (n : ℕ)
    → length x.1 ≤ n
    → length y.1 ≤ n
    → length (if b then x else y).1 ≤ n
if-le true x y n h h' = h
if-le false x y n h h' = h'

pub skip_blank-le : (s : Bytes) → length (skip_blank s) ≤ length s
unfolding skip_blank
skip_blank-le [] = omega arith
skip_blank-le (c ∷ s) = let ih = skip_blank-le s in ground arith

pub skip_line-le : (s : Bytes) → length (skip_line s) ≤ length s
unfolding skip_line
skip_line-le [] = omega arith
skip_line-le (c ∷ s) = let ih = skip_line-le s in ground arith

skip_newline-le : (s : Bytes) → length (skip_newline s) ≤ length s
unfolding skip_newline
skip_newline-le [] = omega arith
skip_newline-le (c ∷ []) = ground arith
skip_newline-le (c ∷ d ∷ s) = ground arith

skip_octal-le : (n x : ℕ) (s : Bytes) → length (skip_octal n x s).1 ≤ length s
unfolding skip_octal
skip_octal-le zero x s = omega arith
skip_octal-le (suc n) x [] = omega arith
skip_octal-le (suc n) x (c ∷ s) =
    let ih = skip_octal-le n (x * 8 + (c - b'0')) s in
    if-le (is_octal c) _ (x, c ∷ s) _ (omega arith) (omega arith)

skip_hexadecimal-le : (n x : ℕ) (s : Bytes) → length (skip_hexadecimal n x s).1 ≤ length s
unfolding skip_hexadecimal
skip_hexadecimal-le zero x s = omega arith
skip_hexadecimal-le (suc n) x [] = omega arith
skip_hexadecimal-le (suc n) x (c ∷ s) =
    let ih = skip_hexadecimal-le n (x * 16 + xdigit_value c) s in
    if-le (is_xdigit c && leb x 0x10fff) (skip_hexadecimal n (x * 16 + xdigit_value c) s) (x, c ∷ s)
      _ (omega arith) (omega arith)

hex_escape-le : (n : ℕ) (s : Bytes) → length (hex_escape n s).1 ≤ length s
unfolding hex_escape
hex_escape-le n [] = omega arith
hex_escape-le n (c ∷ s) =
    let more = skip_hexadecimal n 0 (c ∷ s) in
    if-le (is_xdigit c) (some more.0, more.1) (none, c ∷ s) _ (skip_hexadecimal-le n 0 (c ∷ s))
      (omega arith)

next_surrogate-le :
    (loop : ℕ → ℕ → Bytes → Bytes × Option ℕ × ℕ × Bytes) (x d n : ℕ) (r : Option ℕ × Bytes)
    → length r.1 ≤ n
    → ((z : ℕ) → length (loop z d r.1).3 ≤ n)
    → length (next_surrogate loop x d r).3 ≤ n
next_surrogate-le loop x d n (none, s) h k = h
next_surrogate-le loop x d n (some z, s) h k =
    if-measure (λ r. length r.3) (leb 0xdc00 z && leb z 0xdfff)
      ([], some (0x10000 + x % 1024 * 1024 + z % 1024), d, s)
      (after_out (append_utf8 x) (loop z d s)) n h (k z)

surrogates-le : (fuel x d : ℕ) (s : Bytes) → length (surrogates fuel x d s).3 ≤ length s
unfolding surrogates
surrogates-le zero x d s = omega arith
surrogates-le (suc fuel) x d [] = omega arith
surrogates-le (suc fuel) x d (c ∷ []) = omega arith
surrogates-le (suc fuel) x d (c ∷ e ∷ s) =
    let r = hex_escape (digits_of e) s in
    let taken = hex_escape-le (digits_of e) s in
    let next =
      next_surrogate-le (surrogates fuel) x e (length s) r taken
        λ z. omega (arith, surrogates-le fuel z e r.1, taken) in
    if-measure (λ r. length r.3)
      (leb 0xd800 x && leb x 0xdbff && c == b'\\' && (e == b'u' || e == b'U'))
      (next_surrogate (surrogates fuel) x e r) ([], some x, d, c ∷ e ∷ s) _ (omega (arith, next))
      (omega arith)

pub read_word-le : (s : Bytes) → length (read_word s).1 ≤ length s
unfolding read_word
read_word-le [] = omega arith
read_word-le (c ∷ s) = let ih = read_word-le s in ground arith

cons_char-rest : (c : ℕ) (r : Option Bytes × Bytes) → (cons_char c r).1 ≡ r.1
cons_char-rest c (none, s) = refl
cons_char-rest c (some t, s) = refl

read_bars-le : (s : Bytes) → length (read_bars s).1 ≤ length s
unfolding read_bars
read_bars-le [] = omega arith
read_bars-le (c ∷ []) = ground arith
read_bars-le (c ∷ d ∷ s) =
    let ih = read_bars-le s in
    let ih' = read_bars-le (d ∷ s) in
    let bar = ap length (cons_char-rest c (read_bars s)) in
    let plain = ap length (cons_char-rest c (read_bars (d ∷ s))) in
    if-le (c == b'|') _ _ _
      (if-le (d == b'|') (cons_char c (read_bars s)) (some [], d ∷ s) _ (omega (arith, ih, bar))
        (omega arith))
      (if-le (is_ascii c && not (is_print c)) (none, c ∷ d ∷ s) (cons_char c (read_bars (d ∷ s))) _
        (omega arith) (omega (arith, ih', plain)))

unicode_end-rest : (r : Surrogates) → (unicode_end r).1 ≡ r.3
unicode_end-rest (out, none, d, s) = refl
unicode_end-rest (out, some x, d, s) = refl

unicode_value-le : (d : ℕ) (r : Option ℕ × Bytes) → length (unicode_value d r).1 ≤ length r.1
unfolding unicode_value
unicode_value-le d (none, s) = omega arith
unicode_value-le d (some x, s) =
    let end = ap length (unicode_end-rest (surrogates (length s) x d s)) in
    omega (arith, end, surrogates-le (length s) x d s)

unicode_body-le : (d : ℕ) (s : Bytes) → length (unicode_body d s).1 ≤ length s
unfolding unicode_body
unicode_body-le d s =
    omega (arith, unicode_value-le d (hex_escape (digits_of d) s), hex_escape-le (digits_of d) s)

x_end-le :
    (d n : ℕ) (s : Bytes) (r : Option ℕ × Bytes)
    → length s ≤ n
    → length r.1 ≤ n
    → length (x_end d s r).1 ≤ n
x_end-le d n s (some x, s') h h' = h'
x_end-le d n s (none, s') h h' = h

escape_body-le : (s : Bytes) → length (escape_body s).1 ≤ length s
unfolding escape_body
escape_body-le [] = omega arith
escape_body-le (c ∷ s) =
    let octal = skip_octal 3 0 (c ∷ s) in
    if-le (is_newline c) ([], skip_newline (c ∷ s)) _ _ (skip_newline-le (c ∷ s))
      (if-le (is_octal c) (octal.0 % 256 ∷ [], octal.1) _ _ (skip_octal-le 3 0 (c ∷ s))
        (if-le (c == b'x' || c == b'X') (x_end c s (hex_escape 2 s)) _ _
          (x_end-le c (suc (length s)) s (hex_escape 2 s) (omega arith)
            (omega (arith, hex_escape-le 2 s)))
          (if-le (c == b'u' || c == b'U') (unicode_body c s) (letter_of c ∷ [], s) _
            (omega (arith, unicode_body-le c s)) (omega arith))))

append_text-rest : (out : Bytes) (r : Option Bytes × Bytes) → (append_text out r).1 ≡ r.1
append_text-rest out (none, s) = refl
append_text-rest out (some t, s) = refl

read_body-le : (fuel : ℕ) (s : Bytes) → length (read_body fuel s).1 ≤ length s
unfolding read_body
read_body-le zero [] = omega arith
read_body-le (suc fuel) [] = omega arith
read_body-le zero (c ∷ s) = omega arith
read_body-le (suc fuel) (c ∷ s) =
    let (out, s') = escape_body s in
    let escaped =
      ap length (append_text-rest (escape_body s).0 (read_body fuel (escape_body s).1)) in
    let plain = ap length (append_text-rest (c ∷ []) (read_body fuel s)) in
    if-le (is_ascii c && not (is_print c)) (none, c ∷ s) _ _ (omega arith)
      (if-le (c == b'"') (some [], s) _ _ (omega arith)
        (if-le (c == b'\\') (append_text (escape_body s).0 (read_body fuel (escape_body s).1))
          (append_text (c ∷ []) (read_body fuel s)) _
          (omega (arith, escaped, escape_body-le s, read_body-le fuel (escape_body s).1))
          (omega (arith, plain, read_body-le fuel s))))

text_or_error-le : (r : Option Bytes × Bytes) → length (text_or_error r).1 ≤ length r.1
text_or_error-le (some t, s) = omega arith
text_or_error-le (none, s) = skip_line-le s

symbol_or_error-le : (r : Option Bytes × Bytes) → length (symbol_or_error r).1 ≤ length r.1
symbol_or_error-le (some t, s) = omega arith
symbol_or_error-le (none, s) = skip_line-le s

pub read_c_string-le : (s : Bytes) → length (read_c_string s).1 ≤ length s
unfolding read_c_string
read_c_string-le s =
    omega (arith, text_or_error-le (read_body (length s) s), read_body-le (length s) s)

pub read_quoted_symbol-le : (s : Bytes) → length (read_quoted_symbol s).1 ≤ length s
unfolding read_quoted_symbol
read_quoted_symbol-le s = omega (arith, symbol_or_error-le (read_bars s), read_bars-le s)

read_body-same :
    (fuel : ℕ) (s : Bytes) → length s ≤ fuel → read_body (suc fuel) s ≡ read_body fuel s
unfolding read_body
read_body-same zero [] h = refl
read_body-same (suc fuel) [] h = refl
read_body-same zero (c ∷ s) h = absurd (omega arith)
read_body-same (suc fuel) (c ∷ s) h =
    let le = escape_body-le s in
    let plain = read_body-same fuel s (omega arith) in
    let escaped = read_body-same fuel (escape_body s).1 (omega arith) in
    rw (read_body, plain, escaped) refl

-- More fuel than the length of the text makes no difference.
read_body-enough : (more : ℕ) (s : Bytes) → read_body (more + length s) s ≡ read_body (length s) s
read_body-enough zero s = ap (λ n. read_body n s) (omega arith)
read_body-enough (suc more) s =
    ap (λ n. read_body n s) (omega arith)
    ∙ read_body-same (more + length s) s (omega arith)
    ∙ read_body-enough more s
