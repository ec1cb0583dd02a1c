-- ===== src/Exp/Reader/Escapes.antt =====
-- Each escape that the printer writes is read as the bytes that it stands for.
use readflex.Ctype.{is_octal, is_xdigit, xdigit_value}
use readflex.Exp.Reader.Strings.{
  skip_octal, skip_hexadecimal, hex_escape, surrogates, unicode_value, unicode_body, digits_of,
  letter_of, escape_body,
}
use readflex.Exp.Text.Utf8.{IsScalar}
use readflex.Exp.Text.{
  Flags, upper_digit, hex_4, hex_6, octal_3, unicode_escape, letter_for, append_utf8,
}
use readflex.Prelude.{
  ℕ, zero, suc, ◌+◌, ◌-◌, ◌*◌, ◌/◌, ◌%◌, ◌^◌, ◌≤◌, ◌<◌, ◌≡◌, refl, ap, ◌∙◌, ◌⊎◌, inl, inr, arith,
  some, [], ◌∷◌, ◌++◌, append_assoc, Bytes, length, true, false, Bool-cases, leb, ◌==◌, ==_iff,
  ◌&&◌, ◌||◌, all_below, all_below-true,
}

upper_digit-IsHex : (d : ℕ) → d < 16 → is_xdigit (upper_digit d) ≡ true
unfolding is_xdigit upper_digit all_below
upper_digit-IsHex d h = all_below-true 16 (λ i. is_xdigit (upper_digit i)) d refl h

xdigit_value-upper_digit : (d : ℕ) → d < 16 → xdigit_value (upper_digit d) ≡ d
unfolding xdigit_value upper_digit all_below
xdigit_value-upper_digit d h =
    (==_iff _ d).0 (all_below-true 16 (λ i. xdigit_value (upper_digit i) == i) d refl h)

skip_hexadecimal-digit :
    (n x d y : ℕ) (s : Bytes)
    → d < 16
    → x ≤ 0x10fff
    → y ≡ x * 16 + d
    → skip_hexadecimal (suc n) x (upper_digit d ∷ s) ≡ skip_hexadecimal n y s
unfolding skip_hexadecimal
skip_hexadecimal-digit n x d y s h l e =
    rw (upper_digit-IsHex d h, xdigit_value-upper_digit d h, e) (ground arith)

-- Four digits behind the value x.
skip_hexadecimal-hex_4 :
    (x c : ℕ) (s : Bytes)
    → c < 2 ^ 16
    → x * 4096 + c / 16 ≤ 0x10fff
    → skip_hexadecimal 4 x (hex_4 c ++ s) ≡ (x * 2 ^ 16 + c, s)
unfolding hex_4
skip_hexadecimal-hex_4 x c s h l =
    skip_hexadecimal-digit 3 x (c / 4096 % 16) _ _ (omega arith) (omega arith) refl
    ∙ skip_hexadecimal-digit 2 _ (c / 256 % 16) _ _ (omega arith) (omega arith) refl
    ∙ skip_hexadecimal-digit 1 _ (c / 16 % 16) _ _ (omega arith) (omega arith) refl
    ∙ skip_hexadecimal-digit 0 _ (c % 16) (x * 2 ^ 16 + c) _ (omega arith) (omega arith)
        (omega arith)
    ∙ unfold skip_hexadecimal in refl

hex_escape-digit :
    (n d x : ℕ) (s s' : Bytes)
    → d < 16
    → skip_hexadecimal n 0 (upper_digit d ∷ s) ≡ (x, s')
    → hex_escape n (upper_digit d ∷ s) ≡ (some x, s')
unfolding hex_escape
hex_escape-digit n d x s s' h e = rw (upper_digit-IsHex d h, e)

hex_escape-hex_4 : (c : ℕ) (s : Bytes) → c < 2 ^ 16 → hex_escape 4 (hex_4 c ++ s) ≡ (some c, s)
hex_escape-hex_4 c s h =
    unfold hex_4 in
    hex_escape-digit 4 (c / 4096 % 16) c _ s (omega arith)
      (skip_hexadecimal-hex_4 0 c s h (omega arith) ∙ ap (λ x. (x, s)) (omega arith))

hex_escape-hex_6 : (c : ℕ) (s : Bytes) → c ≤ 0x10ffff → hex_escape 6 (hex_6 c ++ s) ≡ (some c, s)
hex_escape-hex_6 c s h =
    unfold hex_6 in
    hex_escape-digit 6 (c / 2 ^ 20 % 16) c _ s (omega arith) (
      skip_hexadecimal-digit 5 0 (c / 2 ^ 20 % 16) _ _ (omega arith) (omega arith) refl
      ∙ skip_hexadecimal-digit 4 _ (c / 2 ^ 16 % 16) (c / 2 ^ 16) _ (omega arith) (omega arith)
          (omega arith)
      ∙ skip_hexadecimal-hex_4 (c / 2 ^ 16) (c % 2 ^ 16) s (omega arith) (omega arith)
      ∙ ap (λ x. (x, s)) (omega arith))

pub escape_body-letter :
    (c l : ℕ) (s : Bytes) → letter_for c ≡ some l → escape_body (l ∷ s) ≡ (c ∷ [], s)
unfolding escape_body letter_for letter_of
escape_body-letter c l s e = ground arith

pub escape_body-octal_3 : (c : ℕ) (s : Bytes) → c < 256 → escape_body (octal_3 c ++ s) ≡ (c ∷ [], s)
unfolding escape_body octal_3 skip_octal
escape_body-octal_3 c s h = ground arith

-- No digit can be taken for a part of the escape before it.
abbrev pub NoOctal : Bytes → Type 0
NoOctal [] = Unit
NoOctal (c ∷ s) = is_octal c ≡ false

pub escape_body-zero : (s : Bytes) → NoOctal s → escape_body (b'0' ∷ s) ≡ (0 ∷ [], s)
unfolding escape_body skip_octal
escape_body-zero [] h = ground arith
escape_body-zero (c ∷ s) h = ground arith

-- A value that is no high surrogate ends the loop.
surrogates-plain :
    (fuel x d : ℕ) (s : Bytes)
    → (x < 0xd800) ⊎ (0xdbff < x)
    → surrogates fuel x d s ≡ ([], some x, d, s)
unfolding surrogates
surrogates-plain zero x d s h = refl
surrogates-plain (suc fuel) x d [] h = refl
surrogates-plain (suc fuel) x d (c ∷ []) h = refl
surrogates-plain (suc fuel) x d (c ∷ e ∷ s) h = ground arith

unicode_value-plain :
    (d x : ℕ) (s : Bytes) → IsScalar x → unicode_value d (some x, s) ≡ (append_utf8 x, s)
unfolding unicode_value
unicode_value-plain d x s i =
    rw (surrogates-plain (length s) x d s (ground (arith, i.no_surrogate))) refl

-- A value that is behind "u" or "U".
unicode_body-plain :
    (d x : ℕ) (s s' : Bytes)
    → hex_escape (digits_of d) s ≡ (some x, s')
    → IsScalar x
    → unicode_body d s ≡ (append_utf8 x, s')
unicode_body-plain d x s s' e i =
    let body : unicode_body d s ≡ unicode_value d (some x, s') =
      unfold unicode_body in ap (unicode_value d) e in
    body ∙ unicode_value-plain d x s' i

surrogates-pair :
    (fuel x z : ℕ) (s s' : Bytes)
    → 0xd800 ≤ x
    → x ≤ 0xdbff
    → 0xdc00 ≤ z
    → z ≤ 0xdfff
    → hex_escape 4 s ≡ (some z, s')
    → surrogates (suc fuel) x b'u' (b'\\' ∷ b'u' ∷ s)
      ≡ ([], some (0x10000 + x % 1024 * 1024 + z % 1024), b'u', s')
unfolding surrogates
surrogates-pair fuel x z s s' h l h' l' e =
    let high : (leb 0xd800 x && leb x 0xdbff) ≡ true = ground arith in
    let low : (leb 0xdc00 z && leb z 0xdfff) ≡ true = ground arith in rw (high, e, low)

-- The two values that stand for a character beyond 16 bits.
pair_value :
    (c : ℕ)
    → 0xffff < c
    → c ≤ 0x10ffff
    → 0x10000 + (0xd800 + (c - 0x10000) / 1024 % 1024) % 1024 * 1024 + (0xdc00 + c % 1024) % 1024
      ≡ c
pair_value c h l = omega arith

unicode_value-pair :
    (c : ℕ) (s s' : Bytes)
    → 0xffff < c
    → c ≤ 0x10ffff
    → hex_escape 4 s ≡ (some (0xdc00 + c % 1024), s')
    → unicode_value b'u' (some (0xd800 + (c - 0x10000) / 1024 % 1024), b'\\' ∷ b'u' ∷ s)
      ≡ (append_utf8 c, s')
unfolding unicode_value
unicode_value-pair c s s' h l e =
    rw
      (surrogates-pair (suc (length s)) (0xd800 + (c - 0x10000) / 1024 % 1024) (0xdc00 + c % 1024) s
        s' (omega arith) (omega arith) (omega arith) (omega arith) e)
      (ap (λ x. (append_utf8 x, s')) (pair_value c h l))

unicode_body-pair :
    (c : ℕ) (s : Bytes)
    → 0xffff < c
    → c ≤ 0x10ffff
    → unicode_body b'u' (
        hex_4 (0xd800 + (c - 0x10000) / 1024 % 1024)
        ++ (b'\\' ∷ b'u' ∷ (hex_4 (0xdc00 + c % 1024) ++ s)))
      ≡ (append_utf8 c, s)
unicode_body-pair c s h l =
    let z = 0xdc00 + c % 1024 in
    let x = 0xd800 + (c - 0x10000) / 1024 % 1024 in
    let rest = b'\\' ∷ b'u' ∷ (hex_4 z ++ s) in
    let body : unicode_body b'u' (hex_4 x ++ rest) ≡ unicode_value b'u' (some x, rest) =
      unfold unicode_body in ap (unicode_value b'u') (hex_escape-hex_4 x rest (omega arith)) in
    body ∙ unicode_value-pair c (hex_4 z ++ s) s h l (hex_escape-hex_4 z s (omega arith))

-- A character in any of the three forms.
pub escape_body-unicode_escape :
    (c : ℕ) (flags : Flags) (s : Bytes)
    → IsScalar c
    → (flags.u4escape || flags.u6escape) ≡ true
    → escape_body (unicode_escape c flags ++ s) ≡ (append_utf8 c, s)
unfolding escape_body unicode_escape
escape_body-unicode_escape c flags s i on = elim (Bool-cases (leb c 0xffff && flags.u4escape)) [
  | inl short ↦
      rw short (unicode_body-plain b'u' c (hex_4 c ++ s) s (hex_escape-hex_4 c s (ground arith)) i)
  | inr long ↦ elim (Bool-cases flags.u6escape) [
    | inl six ↦
        rw (long, six)
          (unicode_body-plain b'U' c (hex_6 c ++ s) s (hex_escape-hex_6 c s i.le_max) i)
    | inr four ↦
        let x = 0xd800 + (c - 0x10000) / 1024 % 1024 in
        let z = 0xdc00 + c % 1024 in
        rw (long, four)
          (ap (unicode_body b'u') (append_assoc (hex_4 x) (b'\\' ∷ b'u' ∷ hex_4 z) s)
            ∙ unicode_body-pair c s (ground arith) i.le_max)
  ]
]
