-- ===== src/Exp/Lists.antt =====
-- The lists and texts of miniexp.cpp: `miniexp_number` to `miniexp_cdddr`, `miniexp_length`,
-- `miniexp_reverse`, `miniexp_string`, `miniexp_substring` and `miniexp_concat`. The cdrs of a tree never
-- come back to it, so that the length is never -1; and no list that is reversed in place is used again.
use readflex.Prelude.{
  ℕ, suc, ◌-◌, ◌%◌, ◌^◌, ◌≡◌, refl, arith, true, List, [], ◌∷◌, ◌++◌, Bytes, take, ltb, ◌==◌,
  if◌then◌else◌, ℤ, pos, negsuc,
}
use readflex.Exp.{Exp, nil, cons, number, string, car, cdr}
use readflex.Exp.Number.{fits_number}

-- `(x << 2) | 3`: the number that the upper 30 bits of an `int` stand for.
abbrev signed_30 : ℕ → ℤ
signed_30 r = if ltb r (2 ^ 29) then pos r else negsuc (2 ^ 30 - 1 - r)

unfoldable pub miniexp_number : ℤ → Exp
miniexp_number (pos n) = number (signed_30 (n % 2 ^ 30))
miniexp_number (negsuc n) = number (signed_30 (2 ^ 30 - 1 - n % 2 ^ 30))

unfoldable pub caar : Exp → Exp
unfolding car
caar p = car (car p)

unfoldable pub cadr : Exp → Exp
unfolding car cdr
cadr p = car (cdr p)

unfoldable pub cdar : Exp → Exp
unfolding car cdr
cdar p = cdr (car p)

unfoldable cddr : Exp → Exp
unfolding cdr
cddr p = cdr (cdr p)

unfoldable caddr : Exp → Exp
unfolding car cdr
caddr p = car (cdr (cdr p))

unfoldable cdddr : Exp → Exp
unfolding cdr
cdddr p = cdr (cdr (cdr p))

unfoldable miniexp_length : Exp → ℕ
miniexp_length (cons _ d) = suc (miniexp_length d)
miniexp_length _ = 0

-- The loop of `miniexp_reverse`.
unfoldable pub reverse_onto : Exp → Exp → Exp
reverse_onto (cons a d) l = reverse_onto d (cons a l)
reverse_onto _ l = l

unfoldable pub miniexp_reverse : Exp → Exp
unfolding reverse_onto
miniexp_reverse p = reverse_onto p nil

-- The bytes in front of the first NUL.
unfoldable pub c_str : Bytes → Bytes
c_str [] = []
c_str (c ∷ s) = let rest = c_str s in if c == 0 then [] else c ∷ rest

unfoldable pub miniexp_string : Bytes → Exp
unfolding c_str
miniexp_string s = string (c_str s)

-- At most `len` bytes.
unfoldable pub miniexp_substring : Bytes → ℕ → Exp
unfolding c_str
miniexp_substring s len = string (take len (c_str s))

unfoldable pub to_lstr : Exp → Bytes
to_lstr (string s) = s
to_lstr _ = []

unfoldable concat_texts : Exp → Bytes
unfolding to_lstr
concat_texts (cons a d) = to_lstr a ++ concat_texts d
concat_texts _ = []

unfoldable miniexp_concat : Exp → Exp
unfolding concat_texts
miniexp_concat p = string (concat_texts p)

-- A number that fits beside the tag is kept.
pub miniexp_number-fits : (n : ℤ) → fits_number n ≡ true → miniexp_number n ≡ number n
unfolding miniexp_number fits_number
miniexp_number-fits (pos n) h = ground arith
miniexp_number-fits (negsuc n) h = ground arith

-- The elements before `d`.
abbrev pub list_before : List Exp → Exp → Exp
list_before [] d = d
list_before (e ∷ es) d = cons e (list_before es d)

reverse_onto-twice :
    (es : List Exp) (p q : Exp)
    → reverse_onto (reverse_onto (list_before es nil) p) q ≡ reverse_onto p (list_before es q)
unfolding reverse_onto
reverse_onto-twice [] p q = refl
reverse_onto-twice (e ∷ es) p q = reverse_onto-twice es (cons e p) q

pub reverse-reverse_onto :
    (es : List Exp) → miniexp_reverse (reverse_onto (list_before es nil) nil) ≡ list_before es nil
unfolding miniexp_reverse
reverse-reverse_onto es = reverse_onto-twice es nil nil
