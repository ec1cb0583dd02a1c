-- ===== src/Exp/Symbols/Interned.antt =====
-- A name has one symbol, and a symbol one name.
use readflex.Exp.Symbols.Members.{InSome, InSome-push_at, resize-InSome}
use readflex.Exp.Symbols.Placed.{get_or-InSome}
use readflex.Exp.Symbols.{
  Sym, Table, hashcode, find_sym, symtable, chain_of, new_sym, with_sym, grown, lookup,
  miniexp_symbol,
}
use readflex.Prelude.{
  ℕ, ◌-◌, ◌*◌, ◌%◌, ◌<◌, ◌≡◌, ◌≢◌, refl, sym, ap, ◌∙◌, ◌⊎◌, ◌↔◌, inl, inr, Bool, Bool-cases, Option,
  none, some, Option-cases, List, [], ◌∷◌, Bytes, length, arith, ltb,
}
use readflex.Exp.Symbols.Valid.{
  IsTable, find_sym-In, find_sym-none, chain_of-InSome, resize-IsTable, place_lt, with_sym-IsTable,
  symtable-IsTable,
}

module _ (has_signed_char : Bool) where
  -- What a table keeps of another.
  abbrev Keeps : Table → Table → Type 0
  Keeps t t' = (r : Sym) → InSome r t.buckets → InSome r t'.buckets

  grown-IsTable :
      (t : Table)
      → IsTable has_signed_char t
      → IsTable has_signed_char (grown has_signed_char t) × Keeps t (grown has_signed_char t)
  grown-IsTable t w = elim (Bool-cases (ltb (3 * length t.buckets) (2 * t.nelems))) [
    | inl e ↦
        let large : 0 < 2 * length t.buckets - 1 = omega (arith, w.has_chains) in
        rw e (
          resize-IsTable has_signed_char (2 * length t.buckets - 1) t large w,
          λ r. (resize-InSome (2 * length t.buckets - 1) large t r).0.1,
        )
    | inr e ↦ rw e (w, λ r i. i)
  ]

  -- The symbol that a call gives: it stands in the table then, under the name, and all others still do.
  record Gives (name : Bytes) (t : Table) (result : Option ℕ × Table) (s : Sym) : Type 0 where
    address : result.0 ≡ some s.v
    stands : InSome s result.1.buckets
    named : s.n ≡ name
    keeps : Keeps t result.1
    is_table : IsTable has_signed_char result.1

  symbol-found :
      (name : Bytes) (t : Table) (r : Sym)
      → find_sym name (chain_of has_signed_char name t) ≡ some r
      → miniexp_symbol has_signed_char name t ≡ (some r.v, t)
  unfolding miniexp_symbol lookup
  symbol-found name t r e = rw (e, lookup, miniexp_symbol) refl

  symbol-new :
      (name : Bytes) (t : Table)
      → find_sym name (chain_of has_signed_char name t) ≡ none
      → miniexp_symbol has_signed_char name t
        ≡ (some t.nelems, grown has_signed_char (with_sym has_signed_char name t))
  unfolding miniexp_symbol lookup
  symbol-new name t e = rw (e, lookup, miniexp_symbol) refl

  found-Gives :
      (name : Bytes) (t : Table) (r : Sym)
      → IsTable has_signed_char t
      → find_sym name (chain_of has_signed_char name t) ≡ some r
      → Gives name t (some r.v, t) r
  found-Gives name t r w e =
      let (here, named) = find_sym-In name (chain_of has_signed_char name t) r e in
      record {
        address = refl;
        stands = get_or-InSome r t.buckets (hashcode has_signed_char name % length t.buckets) here;
        named = named;
        keeps = λ r i. i;
        is_table = w;
      }

  new-Gives :
      (name : Bytes) (t : Table)
      → IsTable has_signed_char t
      → find_sym name (chain_of has_signed_char name t) ≡ none
      → Gives name t
          (some t.nelems, grown has_signed_char (with_sym has_signed_char name t))
          (new_sym has_signed_char name t)
  new-Gives name t w e =
      let k : ℕ = hashcode has_signed_char name % length t.buckets in
      let new : (s : Sym) → InSome s t.buckets → s.n ≢ name = λ s i same_name.
        find_sym-none name (chain_of has_signed_char name t) s e
          (chain_of-InSome has_signed_char name t s w i same_name) same_name in
      let (w', kept) =
        grown-IsTable (with_sym has_signed_char name t)
          (with_sym-IsTable has_signed_char name t w new) in
      let into : (s : Sym)
          → (s ≡ new_sym has_signed_char name t) ⊎ InSome s t.buckets
          → InSome s (with_sym has_signed_char name t).buckets =
        λ s.
          (InSome-push_at k (new_sym has_signed_char name t) s t.buckets
            (place_lt has_signed_char name t w)).1 in
      record {
        address = refl;
        stands =
            kept (new_sym has_signed_char name t)
              (into (new_sym has_signed_char name t) (inl refl));
        named = refl;
        keeps = λ r i. kept r (into r (inr i));
        is_table = w';
      }

  miniexp_symbol-Gives :
      (name : Bytes) (t : Table)
      → IsTable has_signed_char t
      → (s : Sym) × Gives name t (miniexp_symbol has_signed_char name t) s
  miniexp_symbol-Gives name t w =
      elim (Option-cases (find_sym name (chain_of has_signed_char name t))) [
        | inr (r, e) ↦ (r, rw (symbol-found name t r e) (found-Gives name t r w e))
        | inl e ↦ (new_sym has_signed_char name t, rw (symbol-new name t e) (new-Gives name t w e))
      ]

  -- The table after calls for the names.
  abbrev pub table_after : List Bytes → Table → Table
  table_after [] t = t
  table_after (name ∷ names) t = table_after names (miniexp_symbol has_signed_char name t).1

  table_after-IsTable :
      (names : List Bytes) (t : Table)
      → IsTable has_signed_char t
      → IsTable has_signed_char (table_after names t) × Keeps t (table_after names t)
  table_after-IsTable [] t w = (w, λ r i. i)
  table_after-IsTable (name ∷ names) t w =
      let (s, g) = miniexp_symbol-Gives name t w in
      let (w', kept) =
        table_after-IsTable names (miniexp_symbol has_signed_char name t).1 g.is_table in
      (w', λ r i. kept r (g.keeps r i))

  -- Two calls of `miniexp_symbol`, with calls for any names before and between them, give a symbol
  -- each, and the same symbol exactly if they are for the same name.
  pub miniexp_symbol_iff :
      (before between : List Bytes) (name other : Bytes)
      → let t : Table = table_after before symtable in
        let (first, t') = miniexp_symbol has_signed_char name t in
        let (second, _) = miniexp_symbol has_signed_char other (table_after between t') in
        (v : ℕ) × ((w : ℕ) × ((first ≡ some v) × ((second ≡ some w) × ((v ≡ w) ↔ (name ≡ other)))))
  miniexp_symbol_iff before between name other =
      let (w, _) = table_after-IsTable before symtable (symtable-IsTable has_signed_char) in
      let (s, g) = miniexp_symbol-Gives name (table_after before symtable) w in
      let (w', kept) = table_after-IsTable between _ g.is_table in
      let (r, g') = miniexp_symbol-Gives other _ w' in
      let old : InSome s _ = g'.keeps s (kept s g.stands) in
      (
        s.v,
        (
          r.v,
          (
            g.address,
            (
              g'.address,
              (
                (λ e.
                    sym g.named
                    ∙ ap (λ (x : Sym). x.n) (g'.is_table.same_address s r old g'.stands e)
                    ∙ g'.named),
                (λ e.
                    ap (λ (x : Sym). x.v)
                      (g'.is_table.same_name s r old g'.stands (g.named ∙ e ∙ sym g'.named))),
              ),
            ),
          ),
        ),
      )
