-- ===== src/Wait/Loop.antt =====
-- The loop of `wait_for` with no fuel, as a relation, and the rounds that it can take.
use readflex.Prelude.{
  ℕ, zero, suc, ◌+◌, ◌*◌, ◌≤◌, ◌<◌, ◌≡◌, refl, none, some, Option-cases, inl, inr, arith, leb,
  leb→le, Bool-cases,
}
use readflex.Failure.{Error, Result, ok, err, >>=-eq-ok, Result-cases, timed_out}
use readflex.Wait.{Wait, messages, millisecond, pass, wait_loop, wait_for}

-- The loop from poll `k` on ends with a result: at a ready poll with its value, or with the first
-- decoder error that is reported, or at the deadline.
pub data Ends {A : Type 0} (deadline : ℕ) (w : Wait A) : ℕ → Result A → Type 0 where
  ready :
      {k : ℕ} (a : A) → w.poll k ≡ some a → messages (w.posted k) ≡ ok tt → Ends deadline w k (ok a)
  ready_failed :
      {k : ℕ} (a : A) (e : Error)
      → w.poll k ≡ some a
      → messages (w.posted k) ≡ err e
      → Ends deadline w k (err e)
  failed :
      {k : ℕ} (e : Error)
      → w.poll k ≡ none
      → messages (w.posted k) ≡ err e
      → Ends deadline w k (err e)
  late :
      {k : ℕ}
      → w.poll k ≡ none
      → messages (w.posted k) ≡ ok tt
      → deadline ≤ w.clock k
      → Ends deadline w k (err timed_out)
  again :
      {k : ℕ} {r : Result A}
      → w.poll k ≡ none
      → messages (w.posted k) ≡ ok tt
      → w.clock k < deadline
      → Ends deadline w (suc k) r
      → Ends deadline w k r

-- `steady_clock` never goes back, and `sleep_for` blocks for at least the time that it is given.
pub record IsSteady {ℓ} {A : Type ℓ} (w : Wait A) : Type 0 where
  pub starts : w.start ≤ w.clock 0
  pub sleeps : (k : ℕ) → w.clock k + millisecond ≤ w.clock (suc k)

pub clock-le {ℓ} :
    {A : Type ℓ} (w : Wait A) (k : ℕ) → IsSteady w → w.start + k * millisecond ≤ w.clock k
clock-le w zero s = omega (arith, s.starts)
clock-le w (suc k) s = omega (arith, clock-le w k s, s.sleeps k)

wait_loop-Ends :
    {A : Type 0} (fuel deadline : ℕ) (w : Wait A) (k : ℕ)
    → IsSteady w
    → w.start + k * millisecond < deadline + millisecond
    → deadline + millisecond ≤ w.start + (k + fuel) * millisecond
    → Ends deadline w k (wait_loop fuel deadline w k)
unfolding wait_loop pass
wait_loop-Ends zero deadline w k s early enough = absurd (omega arith)
wait_loop-Ends (suc fuel) deadline w k s early enough = elim (Option-cases (w.poll k)) [
  | inl busy ↦ elim (Result-cases (messages (w.posted k))) [
    | inl (_, quiet) ↦ elim (Bool-cases (leb deadline (w.clock k))) [
      | inl over ↦ rw (wait_loop, busy, pass, quiet, over) (late busy quiet (leb→le _ _ over))
      | inr left ↦
          let waiting : w.clock k < deadline = ground arith in
          rw (wait_loop, busy, pass, quiet, left)
            (again busy quiet waiting (
              wait_loop-Ends fuel deadline w (suc k) s (omega (arith, clock-le w k s))
                (omega arith)))
    ]
    | inr (e, bad) ↦ rw (wait_loop, busy, pass, bad) (failed e busy bad)
  ]
  | inr (a, done) ↦ elim (Result-cases (messages (w.posted k))) [
    | inl (_, quiet) ↦ rw (wait_loop, done, quiet) (ready a done quiet)
    | inr (e, bad) ↦ rw (wait_loop, done, bad) (ready_failed a e done bad)
  ]
]

-- With a clock that never goes back and sleeps that take their millisecond, the wait ends, and its
-- result is the one at which the source's loop stops.
pub wait_for-Ends :
    {A : Type 0} (timeout_ms : ℕ) (w : Wait A)
    → IsSteady w
    → Ends (w.start + timeout_ms * millisecond) w 0 (wait_for timeout_ms w)
unfolding wait_for
wait_for-Ends timeout_ms w s =
    wait_loop-Ends (suc timeout_ms) (w.start + timeout_ms * millisecond) w 0 s (omega arith)
      (omega arith)

-- The polls that the loop makes.
pub polls :
    {A : Type 0} {deadline : ℕ} {w : Wait A} {k : ℕ} {r : Result A} → Ends deadline w k r → ℕ
polls (again _ _ _ rest) = suc (polls rest)
polls (ready _ _ _) = 1
polls (ready_failed _ _ _ _) = 1
polls (failed _ _ _) = 1
polls (late _ _ _) = 1

polls-add-le :
    {A : Type 0} (timeout_ms : ℕ) {deadline : ℕ} {w : Wait A} {k : ℕ} {r : Result A}
    → deadline ≡ w.start + timeout_ms * millisecond
    → IsSteady w
    → k ≤ timeout_ms
    → (e : Ends deadline w k r) → k + polls e ≤ timeout_ms + 1
unfolding polls
polls-add-le timeout_ms d s early (ready a done quiet) = omega arith
polls-add-le timeout_ms d s early (ready_failed a e done bad) = omega arith
polls-add-le timeout_ms d s early (failed e busy bad) = omega arith
polls-add-le timeout_ms d s early (late busy quiet over) = omega arith
polls-add-le timeout_ms {w} {k} d s early (again busy quiet waiting rest) =
    omega (arith, polls-add-le timeout_ms d s (omega (arith, clock-le w k s)) rest)

-- A wait with a steady clock makes at most one poll for each millisecond of its timeout, and one more.
pub polls-le :
    {A : Type 0} (timeout_ms : ℕ) (w : Wait A) (r : Result A)
    → IsSteady w
    → (e : Ends (w.start + timeout_ms * millisecond) w 0 r) → polls e ≤ timeout_ms + 1
polls-le timeout_ms w r s e = omega (arith, polls-add-le timeout_ms refl s (omega arith) e)

wait_loop-polled :
    {A : Type 0} (fuel deadline : ℕ) (w : Wait A) (k : ℕ) {a : A}
    → wait_loop fuel deadline w k ≡ ok a
    → (j : ℕ) × (w.poll j ≡ some a) × (messages (w.posted j) ≡ ok tt)
unfolding wait_loop
wait_loop-polled zero deadline w k h = cc
wait_loop-polled (suc fuel) deadline w k h = elim (Option-cases (w.poll k)) [
  | inl busy ↦
      let (_, _, rest) = >>=-eq-ok (pass deadline w k) _ (rw (wait_loop, busy) at h) in
      wait_loop-polled fuel deadline w (suc k) rest
  | inr (b, done) ↦
      let (_, quiet, same) = >>=-eq-ok (messages (w.posted k)) _ (rw (wait_loop, done) at h) in
      (k, ground arith, quiet)
]

-- What a wait returns is what some poll answered, with nothing reported up to the end.
pub wait_for-polled :
    {A : Type 0} (timeout_ms : ℕ) (w : Wait A) {a : A}
    → wait_for timeout_ms w ≡ ok a
    → (j : ℕ) × (w.poll j ≡ some a) × (messages (w.posted j) ≡ ok tt)
unfolding wait_for
wait_for-polled timeout_ms w h = wait_loop-polled (suc timeout_ms) _ w 0 h
