-- ===== src/Outline/Target.antt =====
-- The page that an outline's target leads to.
use readflex.Prelude.{
  ℕ, suc, ◌-◌, ◌^◌, ◌<◌, ◌≡◌, refl, arith, ◌⊎◌, inl, inr, Option, none, some, List, [], ◌∷◌, Bytes,
  ℤ, pos, negsuc, ◌≤ℤ◌, Bool-cases, leb_ℤ, ◌&&◌, pos_part,
}
use readflex.Json.{to_string}
use readflex.Outline.Number.{strtol-to_string}
use readflex.Outline.{
  FileInfo, Directory, strtol, is_target, find_page, numbered_page, named_page, outline_page,
}

-- -1, or the index of a page of the document.
abbrev pub IsPageOrNone : Directory → ℤ → Type 0
IsPageOrNone doc page = (page ≡ negsuc 0) ⊎ ((i : ℕ) × (page ≡ pos i) × (pos (suc i) ≤ℤ doc.pages))

find_page-range :
    (doc : Directory) (value : Bytes) (files : List FileInfo)
    → IsPageOrNone doc (find_page doc value files)
unfolding find_page is_target
find_page-range doc value [] = inl refl
find_page-range doc value (info ∷ files) = elim (Bool-cases (is_target doc value info)) [
  | inl hit ↦ rw (find_page, hit) (inr (pos_part info.pageno, ground arith, ground arith))
  | inr miss ↦ rw (find_page, miss) (find_page-range doc value files)
]

numbered_page-range : (doc : Directory) (n : ℤ) → IsPageOrNone doc (numbered_page doc n)
unfolding numbered_page
numbered_page-range doc n = elim (Bool-cases (leb_ℤ (pos 1) n && leb_ℤ n doc.pages)) [
  | inl good ↦ rw (numbered_page, good) (inr (pos_part n - 1, refl, ground arith))
  | inr bad ↦ rw (numbered_page, bad) (inl refl)
]

named_page-range : (doc : Directory) (value : Bytes) → IsPageOrNone doc (named_page doc value)
unfolding named_page
named_page-range doc value =
    ground
      (arith, numbered_page-range doc (strtol value).value, find_page-range doc value doc.files)

-- Whatever the target says, its page is -1 or one of the document's.
pub outline_page-range :
    (doc : Directory) (target : Option Bytes) → IsPageOrNone doc (outline_page doc target)
unfolding outline_page
outline_page-range doc none = inl refl
outline_page-range doc (some []) = inl refl
outline_page-range doc (some (c ∷ value)) = ground (arith, named_page-range doc value)

-- The target `#n` leads to the page with number n, which counts from 1.
pub outline_page-number :
    (doc : Directory) (i : ℕ)
    → pos (suc i) ≤ℤ doc.pages
    → suc i < 10 ^ 10
    → outline_page doc (some (b'#' ∷ to_string (suc i))) ≡ pos i
unfolding outline_page named_page numbered_page
outline_page-number doc i inside small = rw (strtol-to_string (suc i) small) (ground arith)
