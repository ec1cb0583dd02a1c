-- ===== src/Decoder/Text/Layer.antt =====
-- From the bytes of a page's text to the words of the adapter.
use readflex.Decoder.ByteStream.Ensures.{AreBytes, Ensures}
use readflex.Decoder.ByteStream.{got}
use readflex.Decoder.Text.Bounds.{LiesWithin}
use readflex.Decoder.Text.Checked.{IsSound}
use readflex.Decoder.Text.Pages.{IsPage, decode_text-Ensures}
use readflex.Decoder.Text.Trees.{EveryZone, EveryChild}
use readflex.Decoder.Text.{decode_text}
use readflex.Decoder.Zones.Places.{IsSmall, HasSmall, AllSmall, zone_words, pagetext_sub-zone_words}
use readflex.Decoder.Zones.{GRect, Zone, zone, Children, no_more, more, pagetext_sub}
use readflex.Exp.Number.{fits_number}
use readflex.Page.{PageInfo}
use readflex.Prelude.{
  ℕ, ◌≤◌, ◌≡◌, refl, true, some, Bytes, arith, length, ℤ, pos, negsuc, IsWithin, subst,
}
use readflex.Words.Layer.{words_of}

-- The numbers of the decoder have 30 bits.
abbrev largest : ℕ
largest = 536870911

within-fits : (a : ℤ) → IsWithin largest a → fits_number a ≡ true
unfolding fits_number
within-fits (pos n) h = ground arith
within-fits (negsuc n) h = ground arith

LiesWithin-IsSmall : (rect : GRect) → LiesWithin largest rect → IsSmall rect
LiesWithin-IsSmall rect h = record {
  xmin_fits = within-fits rect.xmin h.xmin_within;
  ymin_fits = within-fits rect.ymin h.ymin_within;
  xmax_fits = within-fits rect.xmax h.xmax_within;
  ymax_fits = within-fits rect.ymax h.ymax_within;
}

module _ (maxtext : ℕ) where
  mutual
    IsSound-HasSmall : (z : Zone) → EveryZone (IsSound maxtext largest) z → HasSmall z
    IsSound-HasSmall (zone ztype rect start length zones) ((type, (shape, (fits, near))), below) =
        (LiesWithin-IsSmall rect near, IsSound-AllSmall zones below)

    IsSound-AllSmall :
        (zones : Children) → EveryChild (IsSound maxtext largest) zones → AllSmall zones
    IsSound-AllSmall no_more h = tt
    IsSound-AllSmall (more z zones) (h, hs) = (IsSound-HasSmall z h, IsSound-AllSmall zones hs)

-- The words that the adapter collects from the expression of a page whose chunk of text is decoded are
-- the texts of the zones that are put out as one text, in their order, each at its zone's place: for
-- any chunk of at most 139263 bytes, as no coordinate then leaves the decoder's numbers.
pub decode_text-zone_words :
    (bs rest text : Bytes) (page : Zone) (info : PageInfo) (detail : ℕ)
    → AreBytes bs
    → length bs ≤ 139263
    → decode_text bs ≡ got (record { text = text; page = some page }) rest
    → words_of (pagetext_sub text page detail) info ≡ zone_words text info detail page
decode_text-zone_words bs rest text page info detail h short e =
    let sound : IsPage largest (record { text = text; page = some page }) =
      subst (Ensures (λ t rest. IsPage largest t)) e
        (decode_text-Ensures largest bs h (omega arith)) in
    pagetext_sub-zone_words text info detail page
      (IsSound-HasSmall (length text) page (sound.zones_sound page refl))
