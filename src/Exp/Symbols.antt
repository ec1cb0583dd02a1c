-- ===== src/Exp/Symbols.antt =====
-- `hashcode`, `symtable_t` and `miniexp_symbol` of upstream/libdjvu/miniexp.cpp: the table in which the
-- symbols are, each under its name. A chain of `sym`s is a list, and the address of a `sym`, which is never
-- freed while the table stands, is the number of those that were made before it.
pub mod Members
pub mod Placed
pub mod Valid
pub mod Interned
mod Tests
use Prim.Native.Nat.{bit_xor}
use readflex.Prelude.{
  ℕ, zero, suc, ◌+◌, ◌-◌, ◌*◌, ◌/◌, ◌%◌, ◌^◌, Bool, true, false, ◌&&◌, Option, none, some, List, [],
  ◌∷◌, Bytes, length, get_or, same, leb, ltb, if◌then◌else◌,
}

pub record Sym : Type 0 where
  pub h : ℕ
  pub n : Bytes
  pub v : ℕ

pub record Table : Type 0 where
  pub nelems : ℕ
  pub buckets : List (List Sym)

-- A `char` as the `long` that it becomes, in its lowest 32 bits.
abbrev pub widened : Bool → ℕ → ℕ
widened has_signed_char c = if has_signed_char && leb 128 c then c + (2 ^ 32 - 256) else c

-- The lowest 32 bits of `h`, which is all that is returned of it. The two parts that `|` puts together
-- have no bit in common.
unfoldable pub hash_from : Bool → ℕ → Bytes → ℕ
hash_from has_signed_char h [] = h
hash_from has_signed_char h (c ∷ s) =
    hash_from has_signed_char
      (bit_xor (h * 2 ^ 6 % 2 ^ 32 + h / 2 ^ 26) (widened has_signed_char c)) s

unfoldable pub hashcode : Bool → Bytes → ℕ
unfolding hash_from
hashcode has_signed_char s = hash_from has_signed_char 0x1013 s

unfoldable pub find_sym : Bytes → List Sym → Option Sym
find_sym n [] = none
find_sym n (r ∷ l) = if same n r.n then some r else find_sym n l

-- `s->l = b[j]; b[j] = s`.
unfoldable pub push_at : ℕ → Sym → List (List Sym) → List (List Sym)
push_at j s [] = []
push_at zero s (chain ∷ b) = (s ∷ chain) ∷ b
push_at (suc j) s (chain ∷ b) = chain ∷ push_at j s b

unfoldable pub move_chain : ℕ → List Sym → List (List Sym) → List (List Sym)
unfolding push_at
move_chain nb [] b = b
move_chain nb (s ∷ l) b = move_chain nb l (push_at (s.h % nb) s b)

unfoldable pub move_all : ℕ → List (List Sym) → List (List Sym) → List (List Sym)
unfolding move_chain
move_all nb [] b = b
move_all nb (chain ∷ chains) b = move_all nb chains (move_chain nb chain b)

unfoldable pub no_chains : ℕ → List (List Sym)
no_chains zero = []
no_chains (suc nb) = [] ∷ no_chains nb

unfoldable pub resize : ℕ → Table → Table
unfolding move_all no_chains
resize nb t = record t { buckets = move_all nb t.buckets (no_chains nb) }

unfoldable pub symtable : Table
unfolding resize
symtable = resize 7 (record { nelems = 0; buckets = [] })

module _ (has_signed_char : Bool) where
  abbrev pub chain_of : Bytes → Table → List Sym
  chain_of name t = get_or t.buckets (hashcode has_signed_char name % length t.buckets) []

  abbrev pub new_sym : Bytes → Table → Sym
  new_sym name t = record { h = hashcode has_signed_char name; n = name; v = t.nelems }

  abbrev pub with_sym : Bytes → Table → Table
  with_sym name t = record {
    nelems = suc t.nelems;
    buckets = push_at (hashcode has_signed_char name % length t.buckets) (new_sym name t) t.buckets;
  }

  abbrev pub grown : Table → Table
  grown t =
      if ltb (3 * length t.buckets) (2 * t.nelems) then resize (2 * length t.buckets - 1) t else t

  unfoldable pub lookup : Bytes → Bool → Table → Option Sym × Table
  unfolding find_sym
  lookup name create t = elim (find_sym name (chain_of name t)) [
    | some r ↦ (some r, t)
    | none ↦ if create then (some (new_sym name t), grown (with_sym name t)) else (none, t)
  ]

  -- `miniexp_symbol`: the symbol's `v`.
  unfoldable pub miniexp_symbol : Bytes → Table → Option ℕ × Table
  unfolding lookup
  miniexp_symbol name t =
      let (r, t') = lookup name true t in (elim r [ none ↦ none | some s ↦ some s.v ], t')
