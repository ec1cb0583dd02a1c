-- ===== src/Decoder/Text/Checked.antt =====
-- What a chunk of text is when it is decoded: each zone has its text in the text, its type, and a
-- rectangle that is not empty and not far out; and the fuel is enough.
use readflex.Decoder.ByteStream.Ensures.{Ensures, bind-Ensures, AreBytes, Takes}
use readflex.Decoder.ByteStream.{Reader, pure, ◌>>=◌}
use readflex.Decoder.Text.Bounds.{
  LiesWithin, weaken-LiesWithin, ContextWithin, HasShorts, placed_rect-LiesWithin,
}
use readflex.Decoder.Text.Trees.{
  OnZone, EveryZone, EveryChild, EveryChild-map, EveryZone-map, count, count_all, count-positive,
}
use readflex.Decoder.Layout.{Frame, frame_of, Context, is_blank, placed_start}
use readflex.Decoder.Text.{
  placed_rect, read_fields, read_type, checked, zone_from, decode_with, decode_children,
  decode_zone,
}
use readflex.Decoder.Zones.{GRect, Zone, zone, Children, more}
use readflex.Prelude.{
  ℕ, zero, suc, ◌+◌, ◌*◌, ◌≤◌, ◌<◌, ◌≡◌, false, ◌||◌, Option, none, some, Bytes, arith, length, ℤ,
  pos, negsuc, ltb, inl, inr, Bool-cases,
}
use readflex.Decoder.Text.Reads.{IsType, read_type-Ensures, read_fields-Ensures}

module _ (maxtext : ℕ) where
  -- The zone's text lies in the text, and its rectangle is one, at most `bound` from the corner.
  abbrev pub IsSound : ℕ → OnZone
  IsSound bound ztype rect start length =
      IsType ztype
      × ((is_blank rect ≡ false) × ((start + length ≤ maxtext) × LiesWithin bound rect))

  pub weaken-IsSound :
      (m n : ℕ) (z : Zone) → m ≤ n → EveryZone (IsSound m) z → EveryZone (IsSound n) z
  weaken-IsSound m n z le =
      EveryZone-map
        (λ ztype rect start length (type, (shape, (fits, near))).
          (type, (shape, (fits, weaken-LiesWithin m n rect le near))))
        z

  weaken_children :
      (m n : ℕ) (zones : Children)
      → m ≤ n
      → EveryChild (IsSound m) zones
      → EveryChild (IsSound n) zones
  weaken_children m n zones le =
      EveryChild-map
        (λ ztype rect start length (type, (shape, (fits, near))).
          (type, (shape, (fits, weaken-LiesWithin m n rect le near))))
        zones

  -- What a call gives whose context lies within `bound`: 17 bytes for each zone, and each zone at most
  -- 65536 further out than those before it.
  abbrev pub ZoneRead : ℕ → Bytes → Zone → Bytes → Type 0
  ZoneRead bound bs z rest =
      EveryZone (IsSound (bound + 65536 * count z)) z × Takes (17 * count z) bs rest

  abbrev ChildrenRead : ℕ → Bytes → Children → Bytes → Type 0
  ChildrenRead bound bs zones rest =
      EveryChild (IsSound (bound + 65536 * count_all zones)) zones
      × Takes (17 * count_all zones) bs rest

  checked-Ensures :
      {A : Type 0} (Q : A → Bytes → Type 0) (rect : GRect) (start : ℤ) (length : ℕ)
      (f : ℕ → Reader A) (bs : Bytes)
      → ((start : ℕ) → is_blank rect ≡ false → start + length ≤ maxtext → Ensures Q (f start bs))
      → Ensures Q (checked maxtext rect start length f bs)
  unfolding checked
  checked-Ensures Q rect (negsuc start) length f bs k = ground arith
  checked-Ensures Q rect (pos start) length f bs k =
      elim (Bool-cases (is_blank rect || ltb maxtext (start + length))) [
        | inl e ↦ rw (e, checked) (ground arith)
        | inr e ↦ rw (e, checked) (k start (ground arith) (ground arith))
      ]

  decode_with-Ensures :
      (bound : ℕ) (context : Context) (children : Frame → ℕ → Reader Children) (bs : Bytes)
      → ContextWithin bound context
      → AreBytes bs
      → ((this : Frame) (size : ℕ) (rest : Bytes)
          → LiesWithin (bound + 65536) this.rect
          → Takes 17 bs rest
          → Ensures (ChildrenRead (bound + 65536) rest) (children this size rest))
      → Ensures (ZoneRead bound bs) (decode_with maxtext context children bs)
  unfolding decode_with zone_from
  decode_with-Ensures bound context children bs near h k =
      let Q : Zone → Bytes → Type 0 = ZoneRead bound bs in
      bind-Ensures (λ ztype rest. IsType ztype × Takes 1 bs rest) Q read_type _ bs
        (read_type-Ensures bs h)
        λ ztype bs_1 (type, (n_1, h_1)).
          bind-Ensures (λ f rest. HasShorts f × Takes 16 bs_1 rest) Q read_fields _ bs_1
            (read_fields-Ensures bs_1 h_1)
            λ f bs_2 (shorts, (n_2, h_2)).
              checked-Ensures Q (placed_rect ztype context f) (placed_start context f.start)
                f.length _ bs_2
                λ start shape fits.
                  let far : LiesWithin (bound + 65536) (placed_rect ztype context f) =
                    placed_rect-LiesWithin bound ztype context f near shorts in
                  bind-Ensures (ChildrenRead (bound + 65536) bs_2) Q (children _ f.size) _ bs_2
                    (k _ f.size bs_2 far (omega arith, h_2))
                    λ zones bs_3 (sound, (n_3, h_3)).
                      let farther =
                        weaken-LiesWithin (bound + 65536) (bound + 65536 * suc (count_all zones))
                          (placed_rect ztype context f) (omega arith) far in
                      let below =
                        weaken_children (bound + 65536 + 65536 * count_all zones)
                          (bound + 65536 * suc (count_all zones)) zones (omega arith) sound in
                      (((type, (shape, (fits, farther))), below), (omega arith, h_3))

  -- What stands behind a zone is placed by it.
  frame_of-LiesWithin :
      (bound : ℕ) (z : Zone) → EveryZone (IsSound bound) z → LiesWithin bound (frame_of z).rect
  frame_of-LiesWithin bound (zone ztype rect start length zones)
        ((type, (shape, (fits, near))), below) =
      near

  decode_children-Ensures :
      (fuel bound : ℕ) (parent : Frame) (prev : Option Frame) (size : ℕ) (bs : Bytes)
      → ContextWithin bound (some parent, prev)
      → length bs < fuel
      → AreBytes bs
      → Ensures (ChildrenRead bound bs) (decode_children fuel maxtext parent prev size bs)
  unfolding decode_children
  decode_children-Ensures fuel bound parent prev zero bs near enough h = (tt, (omega arith, h))
  decode_children-Ensures zero bound parent prev (suc size) bs near enough h = absurd (omega arith)
  decode_children-Ensures (suc fuel) bound parent prev (suc size) bs near enough h =
      let Q : Children → Bytes → Type 0 = ChildrenRead bound bs in
      bind-Ensures (ZoneRead bound bs) Q
        (decode_with maxtext (some parent, prev) λ this. decode_children fuel maxtext this none)
        (λ z. decode_children fuel maxtext parent (some (frame_of z)) size >>= λ zones.
          pure (more z zones))
        bs
        (decode_with-Ensures bound (some parent, prev)
          (λ this. decode_children fuel maxtext this none) bs near h
          λ this size' rest far (n, h').
            decode_children-Ensures fuel (bound + 65536) this none size' rest (far, tt)
              (omega arith) h')
        λ z bs_1 (sound, (n_1, h_1)).
          let next : ℕ = bound + 65536 * count z in
          let here : LiesWithin next parent.rect =
            weaken-LiesWithin bound next parent.rect (omega arith) near.0 in
          bind-Ensures (ChildrenRead next bs_1) Q
            (decode_children fuel maxtext parent (some (frame_of z)) size)
            (λ zones. pure (more z zones)) bs_1
            (decode_children-Ensures fuel next parent (some (frame_of z)) size bs_1
              (here, frame_of-LiesWithin next z sound) (omega (arith, count-positive z)) h_1)
            λ zones bs_2 (sounds, (n_2, h_2)).
              let last : ℕ = bound + 65536 * count_all (more z zones) in
              (
                (
                  weaken-IsSound next last z (omega arith) sound,
                  weaken_children (next + 65536 * count_all zones) last zones (omega arith) sounds,
                ),
                (omega arith, h_2),
              )

  pub decode_zone-Ensures :
      (bs : Bytes) → AreBytes bs → Ensures (ZoneRead 0 bs) (decode_zone maxtext bs)
  unfolding decode_zone
  decode_zone-Ensures bs h =
      decode_with-Ensures 0 (none, none) _ bs (tt, tt) h
        λ this size rest far (n, h').
          decode_children-Ensures (suc (length bs)) 65536 this none size rest (far, tt)
            (omega arith) h'
