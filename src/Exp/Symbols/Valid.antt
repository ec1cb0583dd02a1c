-- ===== src/Exp/Symbols/Valid.antt =====
-- The table keeps its symbols in their chains, one for each name and one for each address.
use readflex.Exp.Symbols.Members.{In, InSome, length-push_at, InSome-push_at, resize-InSome}
use readflex.Exp.Symbols.Placed.{
  IsPlaced, PlacedFrom, PlacedFrom-push_at, InSome-place, resize-IsPlaced,
}
use readflex.Exp.Symbols.{
  Sym, Table, hashcode, find_sym, push_at, resize, symtable, chain_of, new_sym, with_sym,
}
use native.Mathlib.Nat.{mod-lt}
use readflex.Prelude.{
  ℕ, ◌-◌, ◌%◌, ◌<◌, ◌≡◌, ◌≢◌, refl, sym, ap, ◌∙◌, subst, ◌⊎◌, inl, inr, Bool, Bool-cases, none,
  some, List, [], ◌∷◌, Bytes, length, get_or, same, same_iff, arith,
}

pub find_sym-In :
    (n : Bytes) (chain : List Sym) (r : Sym) → find_sym n chain ≡ some r → In r chain × (r.n ≡ n)
unfolding find_sym
find_sym-In n [] r h = absurd (ground arith)
find_sym-In n (s ∷ l) r h = elim (Bool-cases (same n s.n)) [
  | inl e ↦ ground (arith, same_iff n s.n)
  | inr e ↦ ground (arith, find_sym-In n l r)
]

pub find_sym-none :
    (n : Bytes) (chain : List Sym) (s : Sym) → find_sym n chain ≡ none → In s chain → s.n ≢ n
unfolding find_sym
find_sym-none n [] s h i k = absurd i
find_sym-none n (r ∷ l) s h (inl e) k =
    absurd (ground (arith, same_iff n r.n, ap (λ (x : Sym). x.n) e))
find_sym-none n (r ∷ l) s h (inr i) k = absurd (ground (arith, find_sym-none n l s))

module _ (has_signed_char : Bool) where
  -- Each symbol in its chain, and at an address that was given out; two symbols of one name, or of one
  -- address, are the same.
  pub record IsTable (t : Table) : Type 0 where
    pub has_chains : 0 < length t.buckets
    pub placed : IsPlaced has_signed_char t
    pub given_out : (s : Sym) → InSome s t.buckets → s.v < t.nelems
    pub same_name : (s r : Sym) → InSome s t.buckets → InSome r t.buckets → s.n ≡ r.n → s ≡ r
    pub same_address : (s r : Sym) → InSome s t.buckets → InSome r t.buckets → s.v ≡ r.v → s ≡ r

  pub chain_of-InSome :
      (name : Bytes) (t : Table) (s : Sym)
      → IsTable t
      → InSome s t.buckets
      → s.n ≡ name
      → In s (chain_of has_signed_char name t)
  chain_of-InSome name t s w i e =
      let (hashed, (_, here)) =
        InSome-place has_signed_char (length t.buckets) 0 s t.buckets w.placed i in
      let place : s.h % length t.buckets - 0 ≡ hashcode has_signed_char name % length t.buckets =
        omega arith
        ∙ ap (λ (h : ℕ). h % length t.buckets) (hashed ∙ ap (hashcode has_signed_char) e) in
      subst (λ (i : ℕ). In s (get_or t.buckets i [])) place here

  -- The table grows without losing anything.
  pub resize-IsTable : (nb : ℕ) (t : Table) → 0 < nb → IsTable t → IsTable (resize nb t)
  unfolding resize
  resize-IsTable nb t large w =
      let whole : length (resize nb t).buckets ≡ nb =
        (resize-InSome nb large t (new_sym has_signed_char [] t)).1 in
      let old : (s : Sym) → InSome s (resize nb t).buckets → InSome s t.buckets =
        λ s. (resize-InSome nb large t s).0.0 in
      record {
        has_chains = omega (arith, whole);
        placed =
            subst (λ (k : ℕ). PlacedFrom has_signed_char k 0 (resize nb t).buckets) (sym whole)
              (resize-IsPlaced has_signed_char nb t w.placed);
        given_out = λ s i. w.given_out s (old s i);
        same_name = λ s r i j. w.same_name s r (old s i) (old r j);
        same_address = λ s r i j. w.same_address s r (old s i) (old r j);
      }

  pub place_lt :
      (name : Bytes) (t : Table)
      → IsTable t
      → hashcode has_signed_char name % length t.buckets < length t.buckets
  place_lt name t w = mod-lt (hashcode has_signed_char name) w.has_chains

  pub with_sym-IsTable :
      (name : Bytes) (t : Table)
      → IsTable t
      → ((s : Sym) → InSome s t.buckets → s.n ≢ name)
      → IsTable (with_sym has_signed_char name t)
  with_sym-IsTable name t w new =
      let k : ℕ = hashcode has_signed_char name % length t.buckets in
      let s' : Sym = new_sym has_signed_char name t in
      let whole : length (push_at k s' t.buckets) ≡ length t.buckets =
        length-push_at k s' t.buckets in
      let old : (s : Sym) → InSome s (push_at k s' t.buckets) → (s ≡ s') ⊎ InSome s t.buckets =
        λ s. (InSome-push_at k s' s t.buckets (place_lt name t w)).0 in
      record {
        has_chains = omega (arith, whole, w.has_chains);
        placed =
            subst (λ (n : ℕ). PlacedFrom has_signed_char n 0 (push_at k s' t.buckets)) (sym whole)
              (PlacedFrom-push_at has_signed_char (length t.buckets) 0 k s' t.buckets refl
                (omega arith) w.placed);
        given_out = λ s i. elim (old s i) [
          | inl a ↦ omega (arith, ap (λ (x : Sym). x.v) a)
          | inr i' ↦ omega (arith, w.given_out s i')
        ];
        same_name = λ s r i j e. elim (old s i) [
          | inl a ↦ elim (old r j) [
            | inl b ↦ a ∙ sym b
            | inr j' ↦ absurd (new r j' (sym e ∙ ap (λ (x : Sym). x.n) a))
          ]
          | inr i' ↦ elim (old r j) [
            | inl b ↦ absurd (new s i' (e ∙ ap (λ (x : Sym). x.n) b))
            | inr j' ↦ w.same_name s r i' j' e
          ]
        ];
        same_address = λ s r i j e. elim (old s i) [
          | inl a ↦ elim (old r j) [
            | inl b ↦ a ∙ sym b
            | inr j' ↦ absurd (omega (arith, w.given_out r j', e, ap (λ (x : Sym). x.v) a))
          ]
          | inr i' ↦ elim (old r j) [
            | inl b ↦ absurd (omega (arith, w.given_out s i', e, ap (λ (x : Sym). x.v) b))
            | inr j' ↦ w.same_address s r i' j' e
          ]
        ];
      }

  pub symtable-IsTable : IsTable symtable
  unfolding symtable
  symtable-IsTable = record {
    has_chains = omega arith;
    placed = ground arith;
    given_out = λ s i. absurd (ground arith);
    same_name = λ s r i j e. absurd (ground arith);
    same_address = λ s r i j e. absurd (ground arith);
  }
