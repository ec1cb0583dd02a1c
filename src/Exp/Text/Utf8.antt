-- ===== src/Exp/Text/Utf8.antt =====
-- UTF-8, as `char_utf8` reads it and `append_utf8` writes it.
use readflex.Prelude.{
  ℕ, ◌+◌, ◌*◌, ◌/◌, ◌%◌, ◌^◌, ◌≤◌, ◌<◌, ◌≡◌, ap, ◌∙◌, ◌⊎◌, inl, inr, arith, some, [], ◌∷◌, ◌++◌,
  Bytes, Bool-cases, ltb, leb,
}
use readflex.Exp.Text.{continue_utf8, char_utf8, append_utf8}

-- A code point that is no surrogate.
pub record IsScalar (x : ℕ) : Type 0 where
  pub le_max : x ≤ 0x10ffff
  pub no_surrogate : (x < 0xd800) ⊎ (0xdfff < x)

-- What `char_utf8` has read, from the byte `b` on: the character is written by the bytes it stood in.
abbrev Read : ℕ → Bytes → ℕ → Bytes → Type 0
Read b s x s' = (append_utf8 x ++ s' ≡ b ∷ s) × IsScalar x

append_utf8_one : (x : ℕ) → x < 0x80 → append_utf8 x ≡ x ∷ []
unfolding append_utf8
append_utf8_one x h = ground arith

append_utf8_four :
    (x : ℕ)
    → 0x10000 ≤ x
    → x ≤ 0x10ffff
    → append_utf8 x
      ≡ (0xf0 + x / 2 ^ 18) ∷ (0x80 + x / 4096 % 64) ∷ (0x80 + x / 64 % 64) ∷ (0x80 + x % 64) ∷ []
unfolding append_utf8
append_utf8_four x h l = ground arith

bytes_of_four :
    {a b c d a' b' c' d' : ℕ} {s : Bytes}
    → a ≡ a'
    → b ≡ b'
    → c ≡ c'
    → d ≡ d'
    → ◌≡◌ {A = Bytes} (a ∷ b ∷ c ∷ d ∷ s) (a' ∷ b' ∷ c' ∷ d' ∷ s)
bytes_of_four p q r t = cc

module _ (b : ℕ) {x : ℕ} {s' : Bytes} where
  char_utf8-two : (s : Bytes) → 0xc0 ≤ b → b < 0xe0 → char_utf8 b s ≡ some (x, s') → Read b s x s'
  unfolding char_utf8 append_utf8 continue_utf8
  char_utf8-two [] l h e = ground arith
  char_utf8-two (c ∷ s) l h e = ground arith

  char_utf8-three : (s : Bytes) → 0xe0 ≤ b → b < 0xf0 → char_utf8 b s ≡ some (x, s') → Read b s x s'
  unfolding char_utf8 append_utf8 continue_utf8
  char_utf8-three [] l h e = ground arith
  char_utf8-three (c ∷ []) l h e = ground arith
  char_utf8-three (c ∷ d ∷ s) l h e = ground arith

  -- The value of four bytes, and what has been checked of it.
  char_utf8-value :
      (c d f : ℕ) (s : Bytes)
      → 0xf0 ≤ b
      → char_utf8 b (c ∷ d ∷ f ∷ s) ≡ some (x, s')
      → (x ≡ ((b % 8 * 64 + c % 64) * 64 + d % 64) * 64 + f % 64)
        × (b < 0xf8)
        × (c / 64 ≡ 2)
        × (d / 64 ≡ 2)
        × (f / 64 ≡ 2)
        × (0x10000 ≤ x)
        × (x ≤ 0x10ffff)
        × (s' ≡ s)
  unfolding char_utf8 continue_utf8
  char_utf8-value c d f s l e = ground arith

  char_utf8-four : (s : Bytes) → 0xf0 ≤ b → char_utf8 b s ≡ some (x, s') → Read b s x s'
  unfolding char_utf8 continue_utf8
  char_utf8-four [] l e = ground arith
  char_utf8-four (c ∷ []) l e = ground arith
  char_utf8-four (c ∷ d ∷ []) l e = ground arith
  char_utf8-four (c ∷ d ∷ f ∷ s) l e =
      let (value, b_lt, hc, hd, hf, ge, le, same) = char_utf8-value c d f s l e in
      (
        ap (λ t. t ++ s') (append_utf8_four x ge le)
            ∙ rw same (bytes_of_four (omega arith) (omega arith) (omega arith) (omega arith)),
        record { le_max = le; no_surrogate = inr (omega arith) },
      )

  char_utf8-ascii : (s : Bytes) → b < 0xc0 → char_utf8 b s ≡ some (x, s') → Read b s x s'
  unfolding char_utf8
  char_utf8-ascii s h e =
      let (small, is_b, same) = value in
      (
        rw (is_b, same, append_utf8_one b small),
        record { le_max = omega arith; no_surrogate = inl (omega arith) },
      )
    where
      value : (b < 0x80) × (x ≡ b) × (s' ≡ s)
      value = ground arith

-- A character that is decoded is no surrogate, in the range of Unicode, and encoded by the very bytes
-- that it was read from: no longer encoding is taken.
pub append_utf8-char_utf8 :
    (b : ℕ) (s : Bytes) {x : ℕ} {s' : Bytes}
    → char_utf8 b s ≡ some (x, s')
    → (append_utf8 x ++ s' ≡ b ∷ s) × IsScalar x
append_utf8-char_utf8 b s e = elim (Bool-cases (ltb b 0xc0)) [
  | inl one ↦ char_utf8-ascii b s (ground arith) e
  | inr more ↦ elim (Bool-cases (ltb b 0xe0)) [
    | inl two ↦ char_utf8-two b s (ground arith) (ground arith) e
    | inr longer ↦ elim (Bool-cases (ltb b 0xf0)) [
      | inl three ↦ char_utf8-three b s (ground arith) (ground arith) e
      | inr four ↦ char_utf8-four b s (ground arith) e
    ]
  ]
]

-- The first byte of an encoded character, and the bytes behind it.
abbrev pub Decodes : ℕ → Bytes → Type 0
Decodes x s = (b : ℕ) × (t : Bytes) × (append_utf8 x ≡ b ∷ t) × (char_utf8 b (t ++ s) ≡ some (x, s))

-- Every character that is no surrogate is decoded from its encoding, whatever stands behind it.
pub char_utf8-append_utf8 : (x : ℕ) (s : Bytes) → IsScalar x → Decodes x s
unfolding append_utf8 char_utf8 continue_utf8
char_utf8-append_utf8 x s i = elim (Bool-cases (leb x 0x7f)) [
  | inl one ↦ (x, [], ground arith, ground arith)
  | inr more ↦ elim (Bool-cases (leb x 0x7ff)) [
    | inl two ↦ (0xc0 + x / 64, (0x80 + x % 64) ∷ [], ground arith, ground arith)
    | inr longer ↦ elim (Bool-cases (leb x 0xffff)) [
      | inl three ↦
          (0xe0 + x / 4096, (0x80 + x / 64 % 64) ∷ (0x80 + x % 64) ∷ [], ground arith, ground arith)
      | inr four ↦ (
        0xf0 + x / 2 ^ 18,
        (0x80 + x / 4096 % 64) ∷ (0x80 + x / 64 % 64) ∷ (0x80 + x % 64) ∷ [],
        ground arith,
        ground arith,
      )
    ]
  ]
]
