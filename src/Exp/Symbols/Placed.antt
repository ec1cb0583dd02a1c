-- ===== src/Exp/Symbols/Placed.antt =====
-- Each symbol stands in the chain of its name.
use readflex.Exp.Symbols.Members.{In, InSome}
use readflex.Exp.Symbols.{Sym, Table, hashcode, push_at, move_chain, move_all, no_chains, resize}
use readflex.Prelude.{
  ℕ, zero, suc, ◌+◌, ◌-◌, ◌%◌, ◌≤◌, ◌≡◌, sym, subst, inl, inr, Bool, List, [], ◌∷◌, length, get_or,
  All, arith,
}

In-All {κ} : (P : Sym → Type κ) (s : Sym) (chain : List Sym) → In s chain → All P chain → P s
In-All P s [] h a = absurd h
In-All P s (r ∷ l) (inl e) (a, later) = subst P (sym e) a
In-All P s (r ∷ l) (inr h) (a, later) = In-All P s l h later

pub get_or-InSome : (s : Sym) (b : List (List Sym)) (i : ℕ) → In s (get_or b i []) → InSome s b
get_or-InSome s [] i h = h
get_or-InSome s (chain ∷ b) zero h = inl h
get_or-InSome s (chain ∷ b) (suc i) h = inr (get_or-InSome s b i h)

module _ (has_signed_char : Bool) where
  abbrev IsHashed : Sym → Type 0
  IsHashed s = s.h ≡ hashcode has_signed_char s.n

  module _ (nb : ℕ) where
    abbrev pub PlacedFrom : ℕ → List (List Sym) → Type 0
    PlacedFrom i [] = Unit
    PlacedFrom i (chain ∷ b) =
        All (λ (s : Sym). IsHashed s × (s.h % nb ≡ i)) chain × PlacedFrom (suc i) b

    pub PlacedFrom-push_at :
        (i j : ℕ) (s : Sym) (b : List (List Sym))
        → IsHashed s
        → s.h % nb ≡ i + j
        → PlacedFrom i b
        → PlacedFrom i (push_at j s b)
    unfolding push_at
    PlacedFrom-push_at i j s [] h e p = tt
    PlacedFrom-push_at i zero s (chain ∷ b) h e (a, p) = (((h, omega (arith, e)), a), p)
    PlacedFrom-push_at i (suc j) s (chain ∷ b) h e (a, p) =
        (a, PlacedFrom-push_at (suc i) j s b h (omega (arith, e)) p)

    PlacedFrom-move_chain :
        (chain : List Sym) (b : List (List Sym))
        → All IsHashed chain
        → PlacedFrom 0 b
        → PlacedFrom 0 (move_chain nb chain b)
    unfolding move_chain
    PlacedFrom-move_chain [] b h p = p
    PlacedFrom-move_chain (s ∷ l) b (h, hs) p =
        PlacedFrom-move_chain l (push_at (s.h % nb) s b) hs
          (PlacedFrom-push_at 0 (s.h % nb) s b h (omega arith) p)

    PlacedFrom-move_all :
        (chains b : List (List Sym))
        → All (All IsHashed) chains
        → PlacedFrom 0 b
        → PlacedFrom 0 (move_all nb chains b)
    unfolding move_all
    PlacedFrom-move_all [] b hs p = p
    PlacedFrom-move_all (chain ∷ chains) b (h, hs) p =
        PlacedFrom-move_all chains (move_chain nb chain b) hs (PlacedFrom-move_chain chain b h p)

    PlacedFrom-no_chains : (i k : ℕ) → PlacedFrom i (no_chains k)
    unfolding no_chains
    PlacedFrom-no_chains i zero = tt
    PlacedFrom-no_chains i (suc k) = (tt, PlacedFrom-no_chains (suc i) k)

    chain-IsHashed :
        (i : ℕ) (chain : List Sym)
        → All (λ (s : Sym). IsHashed s × (s.h % nb ≡ i)) chain
        → All IsHashed chain
    chain-IsHashed i [] a = tt
    chain-IsHashed i (s ∷ l) ((h, e), a) = (h, chain-IsHashed i l a)

    chains-IsHashed : (i : ℕ) (b : List (List Sym)) → PlacedFrom i b → All (All IsHashed) b
    chains-IsHashed i [] p = tt
    chains-IsHashed i (chain ∷ b) (a, p) = (chain-IsHashed i chain a, chains-IsHashed (suc i) b p)

    -- The chain in which a symbol stands.
    pub InSome-place :
        (i : ℕ) (s : Sym) (b : List (List Sym))
        → PlacedFrom i b
        → InSome s b
        → IsHashed s × ((i ≤ s.h % nb) × In s (get_or b (s.h % nb - i) []))
    InSome-place i s [] p h = absurd h
    InSome-place i s (chain ∷ b) (a, p) (inl h) =
        let (hashed, here) = In-All (λ (s : Sym). IsHashed s × (s.h % nb ≡ i)) s chain h a in
        let first : s.h % nb - i ≡ 0 = omega (arith, here) in
        (hashed, (omega (arith, here), rw first h))
    InSome-place i s (chain ∷ b) (a, p) (inr h) =
        let (hashed, (after, there)) = InSome-place (suc i) s b p h in
        let next : s.h % nb - i ≡ suc (s.h % nb - suc i) = omega (arith, after) in
        (hashed, (omega (arith, after), rw next there))

  abbrev pub IsPlaced : Table → Type 0
  IsPlaced t = PlacedFrom (length t.buckets) 0 t.buckets

  pub resize-IsPlaced : (nb : ℕ) (t : Table) → IsPlaced t → PlacedFrom nb 0 (resize nb t).buckets
  unfolding resize
  resize-IsPlaced nb t p =
      PlacedFrom-move_all nb t.buckets (no_chains nb)
        (chains-IsHashed (length t.buckets) 0 t.buckets p) (PlacedFrom-no_chains nb 0 nb)
