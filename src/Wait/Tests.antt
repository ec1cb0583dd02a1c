-- ===== src/Wait/Tests.antt =====
-- Concrete queues and waits.
use readflex.Prelude.{
  ℕ, ◌+◌, ◌*◌, ◌≡◌, refl, ◌⊎◌, none, some, List, [], ◌∷◌, All, Bytes, codes, arith, if◌then◌else◌,
  ◌==◌,
}
use readflex.Failure.{ok, err, decoder, timed_out}
use readflex.Wait.Loop.{Ends, IsSteady, wait_for-Ends}
use readflex.Wait.Answers.{AnswersInTime, wait_for-answers}
use readflex.Wait.Messages.{IsQuiet, FirstReport, messages-FirstReport}
use readflex.Wait.{
  Message, error, other, drain, messages, Wait, millisecond, pass, wait_loop, wait_for,
}

abbrev queue : List Message
queue = other ∷ error (some []) ∷ error (some (codes "bad")) ∷ error none ∷ []

-- The first text that is not empty is thrown; an error with an empty text is passed over.
test_first : messages queue ≡ err (decoder (codes "bad"))
unfolding messages drain
test_first = refl

test_empty_text : messages (error (some []) ∷ []) ≡ ok tt
unfolding messages drain
test_empty_text = refl

messages-FirstReport_example :
    ((messages queue ≡ ok tt) × All IsQuiet queue)
    ⊎ ((t : Bytes) × (messages queue ≡ err (decoder t)) × FirstReport t queue)
messages-FirstReport_example = messages-FirstReport queue

-- A wait that is answered by its third poll.
abbrev third_poll : Wait ℕ
third_poll = record {
  start = 0;
  clock = λ k. k * millisecond;
  poll = λ k. if k == 2 then some 7 else none;
  posted = λ k. other ∷ [];
}

third_poll-IsSteady : IsSteady third_poll
third_poll-IsSteady = record { starts = omega arith; sleeps = λ k. omega arith }

third_poll-ok : wait_for 5 third_poll ≡ ok 7
unfolding wait_for wait_loop pass messages drain
third_poll-ok = refl

test_timed_out : wait_for 1 third_poll ≡ err timed_out
unfolding wait_for wait_loop pass messages drain
test_timed_out = refl

wait_for-Ends_example : Ends (0 + 5 * millisecond) third_poll 0 (wait_for 5 third_poll)
wait_for-Ends_example = wait_for-Ends 5 third_poll third_poll-IsSteady

third_poll-AnswersInTime : AnswersInTime third_poll (5 * millisecond) 2 7
unfolding messages drain
third_poll-AnswersInTime = record {
  ready = refl;
  busy = λ k h. ground arith;
  early = λ k h. omega arith;
  quiet = λ k h. refl;
}

wait_for-answers_example : wait_for 5 third_poll ≡ ok 7
wait_for-answers_example =
    wait_for-answers 5 third_poll 2 7 third_poll-IsSteady third_poll-AnswersInTime

-- A wait that is answered by its first poll.
abbrev pub at_once {ℓ} : {A : Type ℓ} → A → Wait A
at_once a = record { start = 0; clock = λ k. k * millisecond; poll = λ k. some a; posted = λ k. [] }
