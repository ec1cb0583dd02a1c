-- ===== src/Exp/Reader/Texts.antt =====
-- `read_c_string` behind `print_c_string`.
use readflex.Ctype.{is_octal}
use readflex.Exp.Reader.Escapes.{
  NoOctal, escape_body-letter, escape_body-octal_3, escape_body-zero, escape_body-unicode_escape,
}
use readflex.Exp.Reader.Strings.{escape_body, read_body, append_text}
use readflex.Exp.Reader.{read_c_string}
use readflex.Exp.Text.Utf8.{IsScalar, append_utf8-char_utf8}
use readflex.Exp.Text.{
  Flags, char_quoted, char_utf8, letter_for, octal_escape, escape_char, unicode_escape, print_chars,
  append_utf8,
}
use readflex.Exp.{string}
use readflex.Prelude.{
  ℕ, zero, suc, ◌≤◌, ◌<◌, ◌≡◌, refl, sym, ap, ◌∙◌, inl, inr, arith, some, [], ◌∷◌, ◌++◌,
  append_assoc, All, Bytes, length, length-append, true, false, not, Bool-cases, Option-cases, leb,
  ◌==◌, ◌&&◌, ◌||◌, subst,
}

abbrev pub IsByte : ℕ → Type 0
IsByte c = c < 256

-- The escape that `step` has put out for the first bytes of `all` is read, before `t`, as those bytes.
abbrev Undone : Bytes → Bytes × Bytes → Bytes → Type 0
Undone all step t =
    (taken : Bytes) × (escape_body (step.0 ++ t) ≡ (taken, t))
    × (taken ++ step.1 ≡ all)
    × (length step.1 < length all)

-- What must not follow "\0" before `s`.
abbrev Follows : Bytes → Bytes → Type 0
Follows [] t = NoOctal t
Follows (d ∷ s) t = is_octal d ≡ false → NoOctal t

octal-Undone :
    (c : ℕ) (s t : Bytes) → IsByte c → Follows s t → Undone (c ∷ s) (octal_escape c s, s) t
unfolding octal_escape
octal-Undone c [] t h f = elim (Bool-cases (c == 0)) [
  | inl z ↦ (0 ∷ [], rw z (escape_body-zero t f), ground arith, omega arith)
  | inr n ↦ (c ∷ [], rw n (escape_body-octal_3 c t h), refl, omega arith)
]
octal-Undone c (d ∷ s) t h f = elim (Bool-cases (c == 0 && not (is_octal d))) [
  | inl z ↦ (0 ∷ [], rw z (escape_body-zero t (f (ground arith))), ground arith, omega arith)
  | inr n ↦ (c ∷ [], rw n (escape_body-octal_3 c t h), refl, omega arith)
]

append_utf8-not_empty : (x : ℕ) → IsScalar x → 0 < length (append_utf8 x)
unfolding append_utf8
append_utf8-not_empty x i = ground (arith, i.le_max)

unicode-Undone :
    (c x : ℕ) (flags : Flags) (s s' t : Bytes)
    → (flags.u4escape || flags.u6escape) ≡ true
    → char_utf8 c s ≡ some (x, s')
    → Undone (c ∷ s) (unicode_escape x flags, s') t
unicode-Undone c x flags s s' t on e =
    let (whole, i) = append_utf8-char_utf8 c s e in
    (
      append_utf8 x,
      escape_body-unicode_escape x flags t i on,
      whole,
      omega (arith, append_utf8-not_empty x i, length-append (append_utf8 x) s', ap length whole),
    )

octal-Follows :
    (c : ℕ) (flags : Flags) (s t : Bytes)
    → escape_char c flags s ≡ (octal_escape c s, s)
    → IsByte c
    → Follows (escape_char c flags s).1 t
    → Undone (c ∷ s) (escape_char c flags s) t
octal-Follows c flags s t e h f =
    subst (λ step. Undone (c ∷ s) step t) (sym e)
      (octal-Undone c s t h (subst (λ k. Follows k t) (ap (λ step. step.1) e) f))

escape_char-Undone :
    (c : ℕ) (flags : Flags) (s t : Bytes)
    → IsByte c
    → Follows (escape_char c flags s).1 t
    → Undone (c ∷ s) (escape_char c flags s) t
unfolding escape_char
escape_char-Undone c flags s t h f = elim (Option-cases (letter_for c)) [
  | inr (l, e) ↦ rw (escape_char, e) (c ∷ [], escape_body-letter c l t e, refl, omega arith)
  | inl e ↦ elim (Bool-cases (leb 0x80 c && (flags.u4escape || flags.u6escape))) [
    | inl on ↦ elim (Option-cases (char_utf8 c s)) [
      | inr ((x, s'), e') ↦
          rw (escape_char, e, on, e') (unicode-Undone c x flags s s' t (ground arith) e')
      | inl e' ↦ octal-Follows c flags s t (rw (escape_char, e, on, e') refl) h f
    ]
    | inr off ↦ octal-Follows c flags s t (rw (escape_char, e, off) refl) h f
  ]
]

print_chars-NoOctal :
    (n : ℕ) (flags : Flags) (d : ℕ) (s t : Bytes)
    → is_octal d ≡ false
    → NoOctal (print_chars n flags (d ∷ s) ++ b'"' ∷ t)
unfolding print_chars
print_chars-NoOctal zero flags d s t h = refl
print_chars-NoOctal (suc n) flags d s t h = elim (Bool-cases (char_quoted d flags)) [
  | inl q ↦ rw (NoOctal, q) refl
  | inr p ↦ rw (NoOctal, p) h
]

print_chars-Follows :
    (n : ℕ) (flags : Flags) (s t : Bytes) → Follows s (print_chars n flags s ++ b'"' ∷ t)
unfolding print_chars
print_chars-Follows zero flags [] t = refl
print_chars-Follows (suc n) flags [] t = refl
print_chars-Follows n flags (d ∷ s) t = print_chars-NoOctal n flags d s t

-- A byte that is not quoted stands for itself.
plain_byte :
    (fuel c : ℕ) (flags : Flags) (s : Bytes)
    → char_quoted c flags ≡ false
    → read_body (suc fuel) (c ∷ s) ≡ append_text (c ∷ []) (read_body fuel s)
unfolding read_body char_quoted
plain_byte fuel c flags s h = ground arith

escaped_byte :
    (fuel : ℕ) (all rest t : Bytes) (step : Bytes × Bytes)
    → (u : Undone all step t) → read_body fuel t ≡ (some step.1, rest)
    → read_body (suc fuel) (b'\\' ∷ (step.0 ++ t)) ≡ (some all, rest)
unfolding read_body
escaped_byte fuel all rest t step (taken, read, whole, shorter) e =
    rw (read, e) (ap (λ x. (some x, rest)) whole)

All-suffix : (xs ys : Bytes) → All IsByte (xs ++ ys) → All IsByte ys
All-suffix [] ys h = h
All-suffix (x ∷ xs) ys (_, h) = All-suffix xs ys h

print_chars-plain :
    (n : ℕ) (flags : Flags) (c : ℕ) (s : Bytes)
    → char_quoted c flags ≡ false
    → print_chars (suc n) flags (c ∷ s) ≡ c ∷ print_chars n flags s
unfolding print_chars
print_chars-plain n flags c s h = rw (print_chars, h) refl

print_chars-quoted :
    (n : ℕ) (flags : Flags) (c : ℕ) (s : Bytes)
    → char_quoted c flags ≡ true
    → print_chars (suc n) flags (c ∷ s)
      ≡ b'\\' ∷ ((escape_char c flags s).0 ++ print_chars n flags (escape_char c flags s).1)
unfolding print_chars
print_chars-quoted n flags c s h = rw (print_chars, h) refl

read_body-print_chars :
    (n fuel : ℕ) (flags : Flags) (s rest : Bytes)
    → All IsByte s
    → length s ≤ n
    → length (print_chars n flags s ++ b'"' ∷ rest) ≤ fuel
    → read_body fuel (print_chars n flags s ++ b'"' ∷ rest) ≡ (some s, rest)
unfolding print_chars
read_body-print_chars n zero flags s rest b l f =
    absurd (omega (arith, length-append (print_chars n flags s) (b'"' ∷ rest)))
read_body-print_chars zero (suc fuel) flags [] rest b l f = unfold read_body in refl
read_body-print_chars (suc n) (suc fuel) flags [] rest b l f = unfold read_body in refl
read_body-print_chars zero (suc fuel) flags (c ∷ s) rest b l f = absurd (omega arith)
read_body-print_chars (suc n) (suc fuel) flags (c ∷ s) rest (h, b) l f =
    elim (Bool-cases (char_quoted c flags)) [
      | inr p ↦
          let e = print_chars-plain n flags c s p in
          let f' : suc (length (print_chars n flags s ++ b'"' ∷ rest)) ≤ suc fuel =
            subst (λ p. length (p ++ b'"' ∷ rest) ≤ suc fuel) e f in
          rw e (
            plain_byte fuel c flags _ p
            ∙ ap (append_text (c ∷ []))
                (read_body-print_chars n fuel flags s rest b (omega arith) (omega (arith, f'))))
      | inl q ↦
          let step = escape_char c flags s in
          let t = print_chars n flags step.1 ++ b'"' ∷ rest in
          let e = print_chars-quoted n flags c s q in
          let f' : suc (length ((step.0 ++ print_chars n flags step.1) ++ b'"' ∷ rest)) ≤ suc fuel =
            subst (λ p. length (p ++ b'"' ∷ rest) ≤ suc fuel) e f in
          let u : Undone (c ∷ s) step t =
            escape_char-Undone c flags s t h (print_chars-Follows n flags step.1 rest) in
          let b' = All-suffix u.0 step.1 (subst (All IsByte) (sym u.2) (h, b)) in
          let room : length t ≤ fuel = omega (
            arith,
            f',
            length-append (step.0 ++ print_chars n flags step.1) (b'"' ∷ rest),
            length-append step.0 (print_chars n flags step.1),
            length-append (print_chars n flags step.1) (b'"' ∷ rest),
          ) in
          let more =
            read_body-print_chars n fuel flags step.1 rest b' (omega (arith, u.3, l)) room in
          rw (e, append_assoc step.0 (print_chars n flags step.1) (b'"' ∷ rest))
            (escaped_byte fuel (c ∷ s) rest t step u more)
    ]

-- A text is read back as it was, whatever flags it was printed with.
pub read_c_string-print_c_string :
    (flags : Flags) (s rest : Bytes)
    → All IsByte s
    → read_c_string (print_chars (length s) flags s ++ b'"' ∷ rest) ≡ (string s, rest)
unfolding read_c_string
read_c_string-print_c_string flags s rest b =
    let all = print_chars (length s) flags s ++ b'"' ∷ rest in
    let read : read_body (length all) all ≡ (some s, rest) =
      read_body-print_chars (length s) (length all) flags s rest b (omega arith) (omega arith) in
    rw read refl
