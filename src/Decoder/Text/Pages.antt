-- ===== src/Decoder/Text/Pages.antt =====
-- What a chunk of text gives is a page's text with its zones.
use readflex.Decoder.ByteStream.Ensures.{Ensures, bind-Ensures, AreBytes, drop-AreBytes}
use readflex.Decoder.ByteStream.{pure}
use readflex.Decoder.Text.Trees.{EveryZone, count}
use readflex.Decoder.Text.{decode_zone, read_zones, text_from, decode_text, TextData}
use readflex.Decoder.Zones.{Zone}
use readflex.Prelude.{
  ℕ, ◌+◌, ◌*◌, ◌≤◌, ◌≡◌, ◌||◌, Option, some, [], ◌∷◌, Bytes, arith, length, take, drop, length-take,
  length-drop, subst, ◌==◌, ltb, leb, inl, inr, Bool-cases,
}
use readflex.Decoder.Text.Reads.{then_24}
use readflex.Decoder.Text.Checked.{IsSound, weaken-IsSound, ZoneRead, decode_zone-Ensures}

-- A page's text and its zones as the functions on them expect them: the text is not empty, and each
-- zone is a zone of it.
pub record IsPage (bound : ℕ) (t : TextData) : Type 0 where
  pub text_nonempty : 1 ≤ length t.text
  pub zones_sound :
      (page : Zone) → t.page ≡ some page → EveryZone (IsSound (length t.text) bound) page

module _ (bound : ℕ) where
  abbrev PageRead : ℕ → Option Zone → Bytes → Type 0
  PageRead textsize page rest = (z : Zone) → page ≡ some z → EveryZone (IsSound textsize bound) z

  read_zones-Ensures :
      (textsize : ℕ) (bs : Bytes)
      → AreBytes bs
      → 65536 * length bs ≤ 17 * bound
      → Ensures (PageRead textsize) (read_zones textsize bs)
  unfolding read_zones
  read_zones-Ensures textsize [] h few = λ z e. absurd (ground arith)
  read_zones-Ensures textsize (version ∷ bs) (hv, h) few = elim (Bool-cases (version == 1)) [
    | inr e ↦ rw (e, read_zones) (ground arith)
    | inl e ↦
        rw (e, read_zones)
          (bind-Ensures (ZoneRead textsize 0 bs) (PageRead textsize) (decode_zone textsize)
            (λ page. pure (some page)) bs (decode_zone-Ensures textsize bs h)
            λ z rest (sound, (n, h')) z' e'.
              subst (EveryZone (IsSound textsize bound)) (ground arith)
                (weaken-IsSound textsize (0 + 65536 * count z) bound z (omega arith) sound))
  ]

  -- What is decoded of a chunk is a text that is not empty, with zones of it: of each zone, the type is
  -- known, the text lies in the text, the rectangle is not empty, and its sides are at most `bound`, if
  -- that allows 65536 for each 17 bytes of the chunk. On any chunk, the fuel is enough.
  pub decode_text-Ensures :
      (bs : Bytes)
      → AreBytes bs
      → 65536 * length bs ≤ 17 * bound
      → Ensures (λ t rest. IsPage bound t) (decode_text bs)
  unfolding decode_text text_from
  decode_text-Ensures bs h few =
      then_24 (λ t rest. IsPage bound t) _ bs h
        λ textsize bs_1 (n, h_1). elim (Bool-cases (ltb (length bs_1) textsize || leb textsize 0)) [
          | inl e ↦ rw (e, text_from) (ground arith)
          | inr e ↦
              rw (e, text_from)
                (bind-Ensures (PageRead textsize) (λ t rest. IsPage bound t) (read_zones textsize) _
                  (drop textsize bs_1)
                  (read_zones-Ensures textsize (drop textsize bs_1)
                    (drop-AreBytes textsize bs_1 h_1) (omega (arith, length-drop textsize bs_1)))
                  λ page rest sound.
                    let whole : length (take textsize bs_1) ≡ textsize =
                      length-take textsize bs_1 (ground arith) in
                    record {
                      text_nonempty = ground arith;
                      zones_sound = λ z e'. rw whole (sound z e');
                    })
        ]
