-- ===== src/Decoder/Text/Trees.antt =====
-- Predicates on every zone of a tree, and the number of its zones.
use readflex.Decoder.Zones.{GRect, Zone, zone, Children, no_more, more}
use readflex.Prelude.{ℕ, suc, ◌+◌, ◌≤◌, arith}

abbrev pub OnZone : Type 1
OnZone = ℕ → GRect → ℕ → ℕ → Type 0

abbrev mutual
  pub EveryZone : OnZone → Zone → Type 0
  EveryZone P (zone ztype rect start length zones) = P ztype rect start length × EveryChild P zones

  pub EveryChild : OnZone → Children → Type 0
  EveryChild P no_more = Unit
  EveryChild P (more z zones) = EveryZone P z × EveryChild P zones

abbrev mutual
  pub count : Zone → ℕ
  count (zone ztype rect start length zones) = suc (count_all zones)

  pub count_all : Children → ℕ
  count_all no_more = 0
  count_all (more z zones) = count z + count_all zones

abbrev pub Implies : OnZone → OnZone → Type 0
Implies P Q =
    (ztype : ℕ) (rect : GRect) (start length : ℕ)
    → P ztype rect start length
    → Q ztype rect start length

module _ {P Q : OnZone} (weaken : Implies P Q) where
  mutual
    pub EveryZone-map : (z : Zone) → EveryZone P z → EveryZone Q z
    EveryZone-map (zone ztype rect start length zones) (h, hs) =
        (weaken ztype rect start length h, EveryChild-map zones hs)

    pub EveryChild-map : (zones : Children) → EveryChild P zones → EveryChild Q zones
    EveryChild-map no_more hs = tt
    EveryChild-map (more z zones) (h, hs) = (EveryZone-map z h, EveryChild-map zones hs)

pub count-positive : (z : Zone) → 1 ≤ count z
count-positive (zone ztype rect start length zones) = omega arith
