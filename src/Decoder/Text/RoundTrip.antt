-- ===== src/Decoder/Text/RoundTrip.antt =====
-- A text that is encoded as a chunk and decoded again.
use readflex.Decoder.ByteStream.{>>=-got, Reader, got, pure, ◌>>=◌, read8, write8}
use readflex.Decoder.Text.Offsets.{
  HasCodes, placed_rect-fields_of, placed-coded_start, read_fields-write_fields,
}
use readflex.Decoder.Text.Reads.{IsType}
use readflex.Decoder.Text.Trees.{count, count_all, count-positive}
use readflex.Decoder.Layout.{Frame, frame_of, Context, is_blank}
use readflex.Decoder.Text.{
  Fields, fields_of, size_of, write_fields, read_fields, read_type, checked, encode_zone,
  encode_children, zone_from, decode_with, decode_children,
}
use readflex.Decoder.Zones.{GRect, Zone, zone, Children, no_more, more}
use readflex.Prelude.{
  ℕ, zero, suc, ◌+◌, ◌≤◌, ◌≡◌, refl, false, Option, none, some, ◌++◌, append_assoc, Bytes, arith,
  length, pos, ap, ◌∙◌,
}

module _ (maxtext : ℕ) where
  abbrev mutual
    -- The zones as the format can hold them: each has a known type, its text in the text, a rectangle
    -- that is not empty, and offsets from those before it, a length and a number of children that fit.
    pub IsCodable : Context → Zone → Type 0
    IsCodable context (zone ztype rect start length zones) =
        IsType ztype
        × ((is_blank rect ≡ false)
            × ((start + length ≤ maxtext)
                × (HasCodes (fields_of context (zone ztype rect start length zones))
                    × AreCodable (frame_of (zone ztype rect start length zones)) none zones)))

    pub AreCodable : Frame → Option Frame → Children → Type 0
    AreCodable parent prev no_more = Unit
    AreCodable parent prev (more z zones) =
        IsCodable (some parent, prev) z × AreCodable parent (some (frame_of z)) zones

  read_type-write8 :
      (ztype : ℕ) (rest : Bytes) → IsType ztype → read_type (write8 ztype ++ rest) ≡ got ztype rest
  unfolding read_type read8 write8
  read_type-write8 ztype rest (h, k) = ground arith

  checked-passes :
      {A : Type 0} (rect : GRect) (start length : ℕ) (f : ℕ → Reader A)
      → is_blank rect ≡ false
      → start + length ≤ maxtext
      → checked maxtext rect (pos start) length f ≡ f start
  unfolding checked
  checked-passes rect start length f shape fits = ground arith

  encode_zone-append :
      (context : Context) (ztype : ℕ) (rect : GRect) (start length : ℕ) (zones : Children)
      (rest : Bytes)
      → encode_zone context (zone ztype rect start length zones) ++ rest
        ≡ write8 ztype
          ++ (write_fields (fields_of context (zone ztype rect start length zones))
              ++ (encode_children (frame_of (zone ztype rect start length zones)) none zones
                  ++ rest))
  unfolding encode_zone
  encode_zone-append context ztype rect start length zones rest = simp append_assoc refl

  zone_from-fields_of :
      (context : Context) (ztype : ℕ) (rect : GRect) (start length : ℕ) (zones : Children)
      (children : Frame → ℕ → Reader Children) (bs rest : Bytes)
      → is_blank rect ≡ false
      → start + length ≤ maxtext
      → children (frame_of (zone ztype rect start length zones)) (size_of zones) bs ≡ got zones rest
      → zone_from maxtext context children ztype
          (fields_of context (zone ztype rect start length zones))
          bs
        ≡ got (zone ztype rect start length zones) rest
  unfolding zone_from
  zone_from-fields_of context ztype rect start length zones children bs rest shape fits h =
      rw
        (
          placed_rect-fields_of context ztype rect start length zones,
          placed-coded_start context (pos start),
        )
        (ap (λ (reader : Reader Zone). reader bs)
            (checked-passes rect start length
              (λ s.
                children (record { rect = rect; start = s; length = length }) (size_of zones)
                >>= λ zones'. pure (zone ztype rect s length zones'))
              shape fits)
          ∙ >>=-got (children (frame_of (zone ztype rect start length zones)) (size_of zones))
              (λ zones'. pure (zone ztype rect start length zones')) bs rest zones h)

  -- One zone, once its children are read back.
  decode_with-encode_zone :
      (context : Context) (ztype : ℕ) (rect : GRect) (start length : ℕ) (zones : Children)
      (children : Frame → ℕ → Reader Children) (rest : Bytes)
      → IsCodable context (zone ztype rect start length zones)
      → children
          (frame_of (zone ztype rect start length zones))
          (size_of zones)
          (encode_children (frame_of (zone ztype rect start length zones)) none zones ++ rest)
        ≡ got zones rest
      → decode_with maxtext context children
          (encode_zone context (zone ztype rect start length zones) ++ rest)
        ≡ got (zone ztype rect start length zones) rest
  unfolding decode_with
  decode_with-encode_zone context ztype rect start length zones children rest
        (type, (shape, (fits, (codes, below)))) h =
      let this : Zone = zone ztype rect start length zones in
      let tail : Bytes = encode_children (frame_of this) none zones ++ rest in
      let f : Fields = fields_of context this in
      ap (decode_with maxtext context children)
        (encode_zone-append context ztype rect start length zones rest)
      ∙ >>=-got read_type (λ t. read_fields >>= zone_from maxtext context children t)
          (write8 ztype ++ (write_fields f ++ tail)) (write_fields f ++ tail) ztype
          (read_type-write8 ztype (write_fields f ++ tail) type)
      ∙ >>=-got read_fields (zone_from maxtext context children ztype) (write_fields f ++ tail) tail
          f (read_fields-write_fields f tail codes)
      ∙ zone_from-fields_of context ztype rect start length zones children tail rest shape fits h

  decode_children-no_more :
      (fuel : ℕ) (parent : Frame) (prev : Option Frame) (rest : Bytes)
      → decode_children fuel maxtext parent prev 0 (encode_children parent prev no_more ++ rest)
        ≡ got no_more rest
  unfolding decode_children encode_children
  decode_children-no_more fuel parent prev rest = refl

  encode_children-append :
      (parent : Frame) (prev : Option Frame) (z : Zone) (zones : Children) (rest : Bytes)
      → encode_children parent prev (more z zones) ++ rest
        ≡ encode_zone (some parent, prev) z
          ++ (encode_children parent (some (frame_of z)) zones ++ rest)
  unfolding encode_children
  encode_children-append parent prev z zones rest = simp append_assoc refl

  -- One round of the loop.
  decode_children-more :
      (fuel : ℕ) (parent : Frame) (prev : Option Frame) (z : Zone) (zones : Children)
      (bs middle rest : Bytes)
      → decode_with maxtext (some parent, prev) (λ this. decode_children fuel maxtext this none) bs
        ≡ got z middle
      → decode_children fuel maxtext parent (some (frame_of z)) (size_of zones) middle
        ≡ got zones rest
      → decode_children (suc fuel) maxtext parent prev (suc (size_of zones)) bs
        ≡ got (more z zones) rest
  unfolding decode_children
  decode_children-more fuel parent prev z zones bs middle rest h k =
      >>=-got
        (decode_with maxtext (some parent, prev) (λ this. decode_children fuel maxtext this none))
        (λ z. decode_children fuel maxtext parent (some (frame_of z)) (size_of zones) >>= λ zones.
          pure (more z zones))
        bs middle z h
      ∙ >>=-got (decode_children fuel maxtext parent (some (frame_of z)) (size_of zones))
          (λ zones. pure (more z zones)) middle rest zones k

  mutual
    pub with-children :
        (fuel : ℕ) (context : Context) (z : Zone) (rest : Bytes)
        → count z ≤ suc fuel
        → IsCodable context z
        → decode_with maxtext context
            (λ this. decode_children fuel maxtext this none)
            (encode_zone context z ++ rest)
          ≡ got z rest
    with-children fuel context (zone ztype rect start length zones) rest enough
          (type, (shape, (fits, (codes, below)))) =
        decode_with-encode_zone context ztype rect start length zones
          (λ this. decode_children fuel maxtext this none) rest
          (type, (shape, (fits, (codes, below))))
          (all-children fuel (frame_of (zone ztype rect start length zones)) none zones rest
            (omega arith) below)

    all-children :
        (fuel : ℕ) (parent : Frame) (prev : Option Frame) (zones : Children) (rest : Bytes)
        → count_all zones ≤ fuel
        → AreCodable parent prev zones
        → decode_children fuel maxtext parent prev
            (size_of zones)
            (encode_children parent prev zones ++ rest)
          ≡ got zones rest
    all-children fuel parent prev no_more rest enough h =
        decode_children-no_more fuel parent prev rest
    all-children zero parent prev (more z zones) rest enough (h, hs) =
        absurd (omega (arith, count-positive z))
    all-children (suc fuel) parent prev (more z zones) rest enough (h, hs) =
        ap (decode_children (suc fuel) maxtext parent prev (suc (size_of zones)))
          (encode_children-append parent prev z zones rest)
        ∙ decode_children-more fuel parent prev z zones
            (encode_zone (some parent, prev) z
              ++ (encode_children parent (some (frame_of z)) zones ++ rest))
            (encode_children parent (some (frame_of z)) zones ++ rest) rest
            (with-children fuel (some parent, prev) z
              (encode_children parent (some (frame_of z)) zones ++ rest) (omega arith) h)
            (all-children fuel parent (some (frame_of z)) zones rest
              (omega (arith, count-positive z)) hs)
