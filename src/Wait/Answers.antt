-- ===== src/Wait/Answers.antt =====
-- A decoder that answers in time is heard.
use readflex.Failure.{ok, Result-cases}
use readflex.Prelude.{
  Option-cases, inl, inr, ℕ, zero, suc, ◌+◌, ◌*◌, ◌≤◌, ◌<◌, ◌≡◌, refl, none, some, false, arith,
  leb,
}
use readflex.Wait.Loop.{IsSteady, clock-le}
use readflex.Wait.{Wait, messages, millisecond, pass, wait_loop, wait_for, last_answer, answered}

module _ {A : Type 0} (w : Wait A) (deadline j : ℕ) (a : A) where
  -- The decoder is busy up to poll `j`, at which it is ready, and reports no error; the polls before
  -- are made before the deadline.
  pub record AnswersInTime : Type 0 where
    pub ready : w.poll j ≡ some a
    pub busy : (k : ℕ) → k < j → w.poll k ≡ none
    pub early : (k : ℕ) → k < j → w.clock k < deadline
    pub quiet : (k : ℕ) → k ≤ j → messages (w.posted k) ≡ ok tt

  wait_loop-answers :
      (fuel n k : ℕ) → AnswersInTime → k + n ≡ j → n < fuel → wait_loop fuel deadline w k ≡ ok a
  unfolding wait_loop pass
  wait_loop-answers zero n k h e enough = absurd (omega arith)
  wait_loop-answers (suc fuel) zero k h e enough =
      let here : k ≡ j = omega (arith, e) in
      let ready_here : w.poll k ≡ some a = rw here h.ready in
      rw (wait_loop, ready_here, h.quiet k (omega (arith, here))) refl
  wait_loop-answers (suc fuel) (suc n) k h e enough =
      let before : k < j = omega (arith, e) in
      let left : leb deadline (w.clock k) ≡ false = ground (arith, h.early k before) in
      rw (wait_loop, h.busy k before, pass, h.quiet k (omega (arith, before)), left)
        (wait_loop-answers fuel n (suc k) h (omega (arith, e)) (omega arith))

polls_in_time :
    {A : Type 0} (timeout_ms : ℕ) (w : Wait A) (j : ℕ) (a : A)
    → IsSteady w
    → AnswersInTime w (w.start + timeout_ms * millisecond) j a
    → j < suc timeout_ms
polls_in_time timeout_ms w zero a s h = omega arith
polls_in_time timeout_ms w (suc j) a s h = omega (arith, clock-le w j s, h.early j (omega arith))

-- A wait in which some poll finds the decoder ready, with no error reported and the polls before it made
-- before the deadline, returns what that poll answers.
pub wait_for-answers :
    {A : Type 0} (timeout_ms : ℕ) (w : Wait A) (j : ℕ) (a : A)
    → IsSteady w
    → AnswersInTime w (w.start + timeout_ms * millisecond) j a
    → wait_for timeout_ms w ≡ ok a
unfolding wait_for
wait_for-answers timeout_ms w j a s h =
    wait_loop-answers w (w.start + timeout_ms * millisecond) j a (suc timeout_ms) j 0 h
      (omega arith) (polls_in_time timeout_ms w j a s h)

-- A wait that returns, returns the answer that its predicate was given last.
wait_loop-last_answer :
    {A : Type 0} (fuel deadline : ℕ) (w : Wait A) (k : ℕ) {a : A}
    → wait_loop fuel deadline w k ≡ ok a
    → last_answer fuel deadline w k ≡ some a
unfolding wait_loop last_answer
wait_loop-last_answer zero deadline w k e = cc e
wait_loop-last_answer (suc fuel) deadline w k e = elim (Option-cases (w.poll k)) [
  | inl busy ↦ elim (Result-cases (pass deadline w k)) [
    | inl (u, passed) ↦
        rw (busy, passed, last_answer)
          (wait_loop-last_answer fuel deadline w (suc k) (rw (wait_loop, busy, passed) at e))
    | inr (x, failed) ↦ ground (arith, busy, failed)
  ]
  | inr (b, ready) ↦ ground (arith, ready)
]

pub answered-wait_for :
    {A : Type 0} (timeout_ms : ℕ) (w : Wait A) {a : A}
    → wait_for timeout_ms w ≡ ok a
    → answered timeout_ms w ≡ some a
unfolding wait_for answered
answered-wait_for timeout_ms w e =
    wait_loop-last_answer (suc timeout_ms) (w.start + timeout_ms * millisecond) w 0 e
