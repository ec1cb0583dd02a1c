-- ===== src/Wait/Named.antt =====
-- The errors of a wait have a text.
use readflex.Prelude.{ℕ, zero, suc, inl, inr, Option-cases, List, Bytes, leb}
use readflex.Failure.{decoder, IsNamed, Named, Named-bind, Named-reject, timed_out}
use readflex.Wait.Messages.{no_text, has_text, FirstReport, here, later, messages-FirstReport}
use readflex.Wait.{Message, Wait, messages, pass, wait_loop, wait_for}

FirstReport-IsNamed : {t : Bytes} {queue : List Message} → FirstReport t queue → IsNamed (decoder t)
FirstReport-IsNamed (here no_text) = tt
FirstReport-IsNamed (here (has_text c cs)) = tt
FirstReport-IsNamed (later q f) = FirstReport-IsNamed f

messages-Named : (queue : List Message) → Named (messages queue)
messages-Named queue = elim (messages-FirstReport queue) [
  | inl (e, _) ↦ rw e tt
  | inr (t, e, first) ↦ rw e (FirstReport-IsNamed first)
]

pass-Named {ℓ} : {A : Type ℓ} (deadline : ℕ) (w : Wait A) (k : ℕ) → Named (pass deadline w k)
unfolding pass
pass-Named deadline w k =
    Named-bind (messages (w.posted k)) _ (messages-Named (w.posted k))
      λ _. Named-reject (leb deadline (w.clock k)) timed_out tt

wait_loop-Named :
    {A : Type 0} (fuel deadline : ℕ) (w : Wait A) (k : ℕ) → Named (wait_loop fuel deadline w k)
unfolding wait_loop
wait_loop-Named zero deadline w k = tt
wait_loop-Named (suc fuel) deadline w k = elim (Option-cases (w.poll k)) [
  | inl busy ↦
      rw (wait_loop, busy)
        (Named-bind (pass deadline w k) _ (pass-Named deadline w k)
          λ _. wait_loop-Named fuel deadline w (suc k))
  | inr (a, done) ↦
      rw (wait_loop, done)
        (Named-bind (messages (w.posted k)) _ (messages-Named (w.posted k)) λ _. tt)
]

pub wait_for-Named : {A : Type 0} (timeout_ms : ℕ) (w : Wait A) → Named (wait_for timeout_ms w)
unfolding wait_for
wait_for-Named timeout_ms w = wait_loop-Named (suc timeout_ms) _ w 0
