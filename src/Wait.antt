-- ===== src/Wait.antt =====
-- `messages` and `wait_for` of pagecraft_djvu.cpp. The decoder's job runs in threads of its own, so
-- one wait is a record of what the polling thread sees: the clock, the answer of each poll, and the
-- messages posted since the queue was last emptied. Times are in nanoseconds.
pub mod Messages
pub mod Loop
pub mod Answers
pub mod Named
pub mod Tests
use readflex.Prelude.{
  ℕ, zero, suc, ◌+◌, ◌*◌, ◌≤◌, Bool, true, false, Option, none, some, List, [], ◌∷◌, Bytes, codes,
  take, leb, if◌then◌else◌,
}
use readflex.Failure.{Result, ok, err, ◌>>=◌, ◌>>◌, reject, timed_out, decoder}

-- `other` is every message whose tag is not DDJVU_ERROR; the text of an error may be null.
pub data Message : Type 0 where
  error : Option Bytes → Message
  other : Message

abbrev pub is_empty : Bytes → Bool
is_empty [] = true
is_empty (c ∷ cs) = false

abbrev text_of : Option Bytes → Bytes
text_of none = codes "DjVu decoding failed"
text_of (some text) = take 1024 text

-- The loop that pops the queue until it is empty; `found` is the local `error`.
unfoldable pub drain : Bytes → List Message → Bytes
drain found [] = found
drain found (other ∷ queue) = drain found queue
drain found (error text ∷ queue) = drain (if is_empty found then text_of text else found) queue

unfoldable pub messages : List Message → Result (Unit {0})
messages queue = let found = drain [] queue in if is_empty found then ok tt else err (decoder found)

pub record Wait {ℓ} (A : Type ℓ) : Type ℓ where
  pub start : ℕ
  pub clock : ℕ → ℕ
  pub poll : ℕ → Option A
  pub posted : ℕ → List Message

-- A poll that always answers: the predicate of `wait_for` says which answer ends the wait.
pub record Polls {ℓ} (A : Type ℓ) : Type ℓ where
  pub start : ℕ
  pub clock : ℕ → ℕ
  pub answer : ℕ → A
  pub posted : ℕ → List Message

abbrev pub until {ℓ} : {A : Type ℓ} → (A → Bool) → Polls A → Wait A
until is_ready p = record {
  start = p.start;
  clock = p.clock;
  poll = λ k. if is_ready (p.answer k) then some (p.answer k) else none;
  posted = p.posted;
}

abbrev pub millisecond : ℕ
millisecond = 1000000

module _ {ℓ} {A : Type ℓ} where
  -- A round that was not ready: what the loop does before it polls again.
  unfoldable pub pass : ℕ → Wait A → ℕ → Result (Unit {0})
  pass deadline w k = messages (w.posted k) >> reject (leb deadline (w.clock k)) timed_out

  -- The loop from poll `k` on. Wait/Loop is about the fuel of `wait_for`.
  unfoldable pub wait_loop : ℕ → ℕ → Wait A → ℕ → Result A
  wait_loop zero deadline w k = err timed_out
  wait_loop (suc fuel) deadline w k = elim (w.poll k) [
    | some a ↦ messages (w.posted k) >> ok a
    | none ↦ pass deadline w k >>= λ _. wait_loop fuel deadline w (suc k)
  ]

  -- A round sleeps for a millisecond, so that `timeout_ms + 1` polls reach the deadline.
  unfoldable pub wait_for : ℕ → Wait A → Result A
  wait_for timeout_ms w = wait_loop (suc timeout_ms) (w.start + timeout_ms * millisecond) w 0

  -- What the predicate of a wait has been given when the wait ends, by an exception or not: `wait_loop`
  -- up to the answer, which `messages` can still throw away.
  unfoldable pub last_answer : ℕ → ℕ → Wait A → ℕ → Option A
  unfolding pass
  last_answer zero deadline w k = none
  last_answer (suc fuel) deadline w k = elim (w.poll k) [
    | some a ↦ some a
    | none ↦ elim (pass deadline w k) [ ok _ ↦ last_answer fuel deadline w (suc k) | err _ ↦ none ]
  ]

  unfoldable pub answered : ℕ → Wait A → Option A
  unfolding last_answer
  answered timeout_ms w = last_answer (suc timeout_ms) (w.start + timeout_ms * millisecond) w 0
