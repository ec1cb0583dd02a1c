-- ===== src/Api/Released.antt =====
-- The expressions that `pagecraft_djvu_text`, `pagecraft_djvu_outline` and `pagecraft_djvu_metadata`
-- take from the decoder, and those that are left with it.
use readflex.Prelude.{
  ◌≡◌, refl, ◌⊎◌, inl, inr, ◌↔◌, arith, ℕ, Bool, true, false, Bool-cases, Option, none, some, List,
  [], ◌∷◌, Bytes, ℤ,
}
use readflex.Exp.{Exp, symbol, dummy, consp, symbolp}
use readflex.Failure.{Error, Result, ok, err, Result-cases}
use readflex.Metadata.{Key, keeps_none, metadata}
use readflex.Outline.{Directory, outline}
use readflex.Page.{PageInfo, Pages, page_info}
use readflex.Resource.{
  acquire, Resource, expression_1, expression_2, after, after_run, adopted, give_back, replay,
  IsReleased,
}
use readflex.TextLayer.{expression, taken, is_kept, layer_text, read_expression, text}
use readflex.Wait.Answers.{answered-wait_for}
use readflex.Wait.{Wait, wait_for, answered}

-- The decoder has answered with an expression that it protects, and the wait throws all the same:
-- `messages` does, behind the poll that answered.
pub record Abandoned (keeps : Exp → Bool) (timeout_ms : ℕ) (w : Wait Exp) : Type 0 where
  pub value : Exp
  pub error : Error
  pub answer : answered timeout_ms w ≡ some value
  pub protected : keeps value ≡ true
  pub thrown : wait_for timeout_ms w ≡ err error

taken-cases :
    (r : Resource) (keeps : Exp → Bool) (a : Option Exp)
    → ((taken r keeps a ≡ []) × ((value : Exp) → a ≡ some value → keeps value ≡ false))
      ⊎ ((value : Exp) × (a ≡ some value)
          × (keeps value ≡ true)
          × (taken r keeps a ≡ acquire r ∷ []))
unfolding taken
taken-cases r keeps none = inl (refl, λ v h. cc h)
taken-cases r keeps (some value) = elim (Bool-cases (keeps value)) [
  | inl kept ↦ inr (value, refl, kept, rw kept refl)
  | inr off ↦ inl (rw off refl, λ v h. ground (arith, h, off))
]

-- A symbol is never protected.
abbrev KeepsNoSymbol : (Exp → Bool) → Type 0
KeepsNoSymbol keeps = (value : Exp) → keeps value ≡ true → symbolp value ≡ false

is_kept-KeepsNoSymbol : KeepsNoSymbol is_kept
unfolding is_kept symbolp
is_kept-KeepsNoSymbol (symbol t) kept = cc kept
is_kept-KeepsNoSymbol dummy kept = cc kept
is_kept-KeepsNoSymbol _ kept = refl

consp-KeepsNoSymbol : KeepsNoSymbol consp
unfolding consp symbolp
consp-KeepsNoSymbol (symbol t) kept = cc kept
consp-KeepsNoSymbol dummy kept = cc kept
consp-KeepsNoSymbol _ kept = refl

module _ (timeout_ms : ℕ) (w : Wait Exp) where
  -- A read that throws behind an answer that is protected is one whose wait has thrown.
  abandoned :
      (keeps : Exp → Bool) (value : Exp) (x : Error)
      → KeepsNoSymbol keeps
      → answered timeout_ms w ≡ some value
      → keeps value ≡ true
      → expression timeout_ms w ≡ err x
      → Abandoned keeps timeout_ms w
  unfolding expression
  abandoned keeps value x safe e kept failed = elim (Result-cases (wait_for timeout_ms w)) [
    | inl (v, waited) ↦
        let last = answered-wait_for timeout_ms w waited in
        absurd (ground (arith, last, e, safe value kept, waited, failed))
    | inr (y, thrown) ↦ record {
      value = value;
      error = y;
      answer = e;
      protected = kept;
      thrown = thrown;
    }
  ]

  not_thrown :
      (keeps : Exp → Bool) (a : Exp)
      → expression timeout_ms w ≡ ok a
      → ¬ Abandoned keeps timeout_ms w
  unfolding expression
  not_thrown keeps a read h = ground (arith, read, h.thrown)

  not_protected :
      (keeps : Exp → Bool)
      → ((value : Exp) → answered timeout_ms w ≡ some value → keeps value ≡ false)
      → ¬ Abandoned keeps timeout_ms w
  not_protected keeps off h = cc (off h.value h.answer, h.protected)

  -- One expression around a part that takes nothing.
  single-IsReleased :
      (keeps : Exp → Bool) (safe : KeepsNoSymbol keeps) (result : Exp → Result Bytes)
      → IsReleased (
          after_run
            (read_expression expression_1 keeps timeout_ms w)
            (λ value. adopted expression_1 (record { result = result value; events = [] })))
        ↔ (¬ Abandoned keeps timeout_ms w)
  unfolding after_run after read_expression adopted replay give_back
  single-IsReleased keeps safe result = elim (Result-cases (expression timeout_ms w)) [
    | inl (a, read) ↦ elim (taken-cases expression_1 keeps (answered timeout_ms w)) [
      | inl (none_taken, off) ↦
          (λ h. not_thrown keeps a read, λ h. rw (read, none_taken, after) refl)
      | inr (value, e, kept, one_taken) ↦
          (λ h. not_thrown keeps a read, λ h. rw (read, one_taken, after) refl)
    ]
    | inr (x, failed) ↦ elim (taken-cases expression_1 keeps (answered timeout_ms w)) [
      | inl (none_taken, off) ↦
          (λ h. not_protected keeps off, λ h. rw (failed, none_taken, after) refl)
      | inr (value, e, kept, one_taken) ↦ (
        λ h a.
            let left : some (expression_1 ∷ []) ≡ some [] = rw (failed, one_taken, after) at h in
            cc left,
        λ h. absurd (h (abandoned keeps value x safe e kept failed)),
      )
    ]
  ]

taken-keeps_none : (r : Resource) (a : Option Exp) → taken r keeps_none a ≡ []
unfolding taken keeps_none
taken-keeps_none r none = refl
taken-keeps_none r (some value) = refl

-- The second read, once the first has returned and its guard stands.
second-IsReleased :
    (timeout_ms : ℕ) (global first : Wait Exp) (value : Exp) (result : Exp → Exp → Result Bytes)
    → expression timeout_ms global ≡ ok value
    → IsReleased (
        after_run (read_expression expression_1 keeps_none timeout_ms global) (λ value.
          adopted expression_1 (
            after_run (read_expression expression_2 consp timeout_ms first) (λ other.
              adopted expression_2 (record { result = result value other; events = [] })))))
      ↔ (¬ Abandoned consp timeout_ms first)
unfolding after_run after read_expression adopted replay give_back
second-IsReleased timeout_ms global first value result read =
    let nothing = taken-keeps_none expression_1 (answered timeout_ms global) in
    elim (Result-cases (expression timeout_ms first)) [
      | inl (a, got) ↦ elim (taken-cases expression_2 consp (answered timeout_ms first)) [
        | inl (none_taken, off) ↦ (
          λ h. not_thrown timeout_ms first consp a got,
          λ h. rw (read, nothing, got, none_taken, after) refl,
        )
        | inr (v, e, kept, one_taken) ↦ (
          λ h. not_thrown timeout_ms first consp a got,
          λ h. rw (read, nothing, got, one_taken, after) refl,
        )
      ]
      | inr (x, failed) ↦ elim (taken-cases expression_2 consp (answered timeout_ms first)) [
        | inl (none_taken, off) ↦ (
          λ h. not_protected timeout_ms first consp off,
          λ h. rw (read, nothing, failed, none_taken, after) refl,
        )
        | inr (v, e, kept, one_taken) ↦ (
          λ h a.
              let left : some (expression_2 ∷ []) ≡ some [] =
                rw (read, nothing, failed, one_taken, after) at h in
              cc left,
          λ h. absurd (h (abandoned timeout_ms first consp v x consp-KeepsNoSymbol e kept failed)),
        )
      ]
    ]

text-IsReleased :
    (doc : Pages) (text_polls : ℤ → Wait Exp) (has_memory : Bool) (page : ℤ)
    → IsReleased (text doc text_polls has_memory page) ↔ (
        ¬ (
          (info : PageInfo) × (page_info doc page ≡ ok info)
          × Abandoned is_kept doc.timeout_ms (text_polls page)))
unfolding text after replay
text-IsReleased doc text_polls has_memory page = elim (Result-cases (page_info doc page)) [
  | inl (info, paged) ↦
      let read =
        single-IsReleased doc.timeout_ms (text_polls page) is_kept is_kept-KeepsNoSymbol
          (layer_text info has_memory) in
      (
        λ h a. read.0 (rw (paged, after) at h) a.2,
        λ h. rw (paged, after) (read.1 (λ a. h (info, paged, a))),
      )
  | inr (x, failed) ↦ (λ h a. cc (failed, a.1), λ h. rw (failed, after) refl)
]

metadata-IsReleased :
    (timeout_ms : ℕ) (global first : Wait Exp) (keys_of : Exp → Option (List Key))
    (has_memory : Bool)
    → IsReleased (metadata timeout_ms global first keys_of has_memory) ↔ (
        ¬ (
          (value : Exp) × (expression timeout_ms global ≡ ok value)
          × Abandoned consp timeout_ms first))
unfolding metadata
metadata-IsReleased timeout_ms global first keys_of has_memory =
    elim (Result-cases (expression timeout_ms global)) [
      | inl (value, read) ↦
          let second = second-IsReleased timeout_ms global first value _ read in
          (λ h a. second.0 h a.2, λ h. second.1 (λ a. h (value, read, a)))
      | inr (x, failed) ↦ (
        λ h a. cc (failed, a.1),
        λ h.
            unfold after_run read_expression after replay in
            rw (failed, taken-keeps_none expression_1 (answered timeout_ms global), after) refl,
      )
    ]

-- `text`, `outline` and `metadata` release each expression that they took exactly if no read of
-- theirs is abandoned: a read is if its wait throws although the decoder has answered with an
-- expression that it protects. `text` makes its read only if the page has a size. Of the two of
-- `metadata` only the second counts, as the first takes nothing; it is made only if the first
-- returns.
pub readers-IsReleased :
    (doc : Pages) (text_polls : ℤ → Wait Exp) (has_memory : Bool) (page : ℤ) (directory : Directory)
    (global first : Wait Exp) (keys_of : Exp → Option (List Key))
    → (IsReleased (text doc text_polls has_memory page) ↔ (
        ¬ (
          (info : PageInfo) × (page_info doc page ≡ ok info)
          × Abandoned is_kept doc.timeout_ms (text_polls page))))
      × (IsReleased (outline directory doc.timeout_ms global has_memory)
          ↔ (¬ Abandoned is_kept doc.timeout_ms global))
      × (IsReleased (metadata doc.timeout_ms global first keys_of has_memory) ↔ (
          ¬ (
            (value : Exp) × (expression doc.timeout_ms global ≡ ok value)
            × Abandoned consp doc.timeout_ms first)))
unfolding outline
readers-IsReleased doc text_polls has_memory page directory global first keys_of = (
  text-IsReleased doc text_polls has_memory page,
  single-IsReleased doc.timeout_ms global is_kept is_kept-KeepsNoSymbol _,
  metadata-IsReleased doc.timeout_ms global first keys_of has_memory,
)
