-- ===== src/Exp/Symbols/Members.antt =====
-- Which symbols stand in the chains, and where: filling the chains of a larger table keeps them all.
use readflex.Exp.Symbols.{Sym, Table, push_at, move_chain, move_all, no_chains, resize}
use readflex.Prelude.{ℕ, zero, suc, ◌%◌, ◌<◌, ◌≡◌, refl, ◌⊎◌, ◌↔◌, List, [], ◌∷◌, length, arith}

abbrev pub In : Sym → List Sym → Type 0
In s [] = ⊥
In s (r ∷ l) = (s ≡ r) ⊎ In s l

-- In some chain.
abbrev pub InSome : Sym → List (List Sym) → Type 0
InSome s [] = ⊥
InSome s (chain ∷ b) = In s chain ⊎ InSome s b

pub length-push_at : (j : ℕ) (s : Sym) (b : List (List Sym)) → length (push_at j s b) ≡ length b
unfolding push_at
length-push_at j s [] = refl
length-push_at zero s (chain ∷ b) = refl
length-push_at (suc j) s (chain ∷ b) = omega (arith, length-push_at j s b)

pub InSome-push_at :
    (j : ℕ) (s r : Sym) (b : List (List Sym))
    → j < length b
    → InSome r (push_at j s b) ↔ ((r ≡ s) ⊎ InSome r b)
unfolding push_at
InSome-push_at j s r [] h = absurd (omega arith)
InSome-push_at zero s r (chain ∷ b) h = ground arith
InSome-push_at (suc j) s r (chain ∷ b) h = ground (arith, InSome-push_at j s r b (omega arith))

module _ (nb : ℕ) (large : 0 < nb) where
  InSome-move_chain :
      (chain : List Sym) (r : Sym) (b : List (List Sym))
      → length b ≡ nb
      → (InSome r (move_chain nb chain b) ↔ (In r chain ⊎ InSome r b))
        × (length (move_chain nb chain b) ≡ nb)
  unfolding move_chain
  InSome-move_chain [] r b e = ground arith
  InSome-move_chain (s ∷ l) r b e = ground (
    arith,
    InSome-push_at (s.h % nb) s r b (omega arith),
    InSome-move_chain l r (push_at (s.h % nb) s b)
        (omega (arith, length-push_at (s.h % nb) s b, e)),
  )

  InSome-move_all :
      (chains : List (List Sym)) (r : Sym) (b : List (List Sym))
      → length b ≡ nb
      → (InSome r (move_all nb chains b) ↔ (InSome r chains ⊎ InSome r b))
        × (length (move_all nb chains b) ≡ nb)
  unfolding move_all
  InSome-move_all [] r b e = ground arith
  InSome-move_all (chain ∷ chains) r b e =
      let (moved, same_length) = InSome-move_chain chain r b e in
      let (rest, last) = InSome-move_all chains r (move_chain nb chain b) same_length in
      ground arith

  no_chains-InSome : (k : ℕ) (r : Sym) → InSome r (no_chains k) → ⊥
  unfolding no_chains
  no_chains-InSome zero r h = h
  no_chains-InSome (suc k) r h = ground (arith, no_chains-InSome k r)

  length-no_chains : (k : ℕ) → length (no_chains k) ≡ k
  unfolding no_chains
  length-no_chains zero = refl
  length-no_chains (suc k) = omega (arith, length-no_chains k)

  -- A table of another size has the same symbols.
  pub resize-InSome :
      (t : Table) (r : Sym)
      → (InSome r (resize nb t).buckets ↔ InSome r t.buckets) × (length (resize nb t).buckets ≡ nb)
  unfolding resize
  resize-InSome t r =
      let (moved, whole) = InSome-move_all t.buckets r (no_chains nb) (length-no_chains nb) in
      let none_there = no_chains-InSome nb r in ground arith
