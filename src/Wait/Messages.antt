-- ===== src/Wait/Messages.antt =====
-- What `messages` makes of a queue.
use readflex.Prelude.{
  ℕ, All, ◌≡◌, refl, ◌⊎◌, inl, inr, none, some, List, [], ◌∷◌, Bytes, take, codes,
}
use readflex.Failure.{ok, err, decoder}
use readflex.Wait.{Message, error, other, drain, messages}

-- A message that reports nothing: not an error, or an error with an empty text.
pub data IsQuiet : Message → Type 0 where
  not_error : IsQuiet other
  empty_text : IsQuiet (error (some []))

-- The text reported for a message that does report something.
pub data Reports : Message → Bytes → Type 0 where
  no_text : Reports (error none) (codes "DjVu decoding failed")
  has_text : (c : ℕ) (cs : Bytes) → Reports (error (some (c ∷ cs))) (take 1024 (c ∷ cs))

-- The first message of the queue that reports something reports this text.
pub data FirstReport (t : Bytes) : List Message → Type 0 where
  here : {m : Message} {queue : List Message} → Reports m t → FirstReport t (m ∷ queue)
  later :
      {m : Message} {queue : List Message}
      → IsQuiet m
      → FirstReport t queue
      → FirstReport t (m ∷ queue)

drain_keeps : (c : ℕ) (cs : Bytes) (queue : List Message) → drain (c ∷ cs) queue ≡ c ∷ cs
unfolding drain
drain_keeps c cs [] = refl
drain_keeps c cs (error _ ∷ queue) = drain_keeps c cs queue
drain_keeps c cs (other ∷ queue) = drain_keeps c cs queue

-- `messages` succeeds if every message of the queue is quiet, and otherwise throws the text of the
-- first that is not.
pub messages-FirstReport :
    (queue : List Message)
    → ((messages queue ≡ ok tt) × All IsQuiet queue)
      ⊎ ((t : Bytes) × (messages queue ≡ err (decoder t)) × FirstReport t queue)
unfolding messages drain
messages-FirstReport [] = inl (refl, tt)
messages-FirstReport (other ∷ queue) = elim (messages-FirstReport queue) [
  | inl (e, quiet) ↦ inl (e, (not_error, quiet))
  | inr (t, e, first) ↦ inr (t, e, later not_error first)
]
messages-FirstReport (error none ∷ queue) = inr (_, rw (drain_keeps _ _ queue), here no_text)
messages-FirstReport (error (some []) ∷ queue) = elim (messages-FirstReport queue) [
  | inl (e, quiet) ↦ inl (e, (empty_text, quiet))
  | inr (t, e, first) ↦ inr (t, e, later empty_text first)
]
messages-FirstReport (error (some (c ∷ cs)) ∷ queue) =
    inr (_, rw (drain_keeps _ _ queue), here (has_text c cs))
