-- ===== src/Decoder/Text/Encoded.antt =====
-- The whole chunk: a text with its zones.
use readflex.Decoder.ByteStream.Numbers.{read24-write24}
use readflex.Decoder.ByteStream.{got, pure, >>=-got, write8, read24, write24}
use readflex.Decoder.Text.RoundTrip.{IsCodable, with-children}
use readflex.Decoder.Text.Trees.{count, count_all}
use readflex.Decoder.Layout.{Frame, frame_of, Context, is_blank}
use readflex.Decoder.Text.{
  fields_of, write_fields, encode_zone, encode_children, decode_children, decode_with, decode_zone,
  TextData, read_zones, text_from, decode_text, encode_text, encode_page,
}
use readflex.Decoder.Zones.{Zone, zone, Children, no_more, more}
use readflex.Prelude.{
  ℕ, suc, ◌≤◌, ◌<◌, ◌≡◌, refl, sym, false, ◌||◌, Option, none, some, [], ◌∷◌, ◌++◌, append-nil,
  length-append, Bytes, arith, length, ltb, leb, ap, ◌∙◌, take-append, drop-append,
}

mutual
  unfolding encode_zone write8

  zone-Long : (context : Context) (z : Zone) → count z ≤ length (encode_zone context z)
  zone-Long context (zone ztype rect start len zones) = omega (
    arith,
    length-append
        (write8 ztype ++ write_fields (fields_of context (zone ztype rect start len zones)))
        (encode_children (frame_of (zone ztype rect start len zones)) none zones),
    length-append (write8 ztype)
        (write_fields (fields_of context (zone ztype rect start len zones))),
    children-Long (frame_of (zone ztype rect start len zones)) none zones,
  )

  children-Long :
      (parent : Frame) (prev : Option Frame) (zones : Children)
      → count_all zones ≤ length (encode_children parent prev zones)
  children-Long parent prev no_more = omega arith
  children-Long parent prev (more z zones) = omega (
    arith,
    length-append (encode_zone (some parent, prev) z)
        (encode_children parent (some (frame_of z)) zones),
    zone-Long (some parent, prev) z,
    children-Long parent (some (frame_of z)) zones,
  )

decode_zone-encode_zone :
    (maxtext : ℕ) (z : Zone)
    → IsCodable maxtext (none, none) z
    → decode_zone maxtext (encode_zone (none, none) z) ≡ got z []
unfolding decode_zone
decode_zone-encode_zone maxtext z h =
    let bs : Bytes = encode_zone (none, none) z in
    let fuel : ℕ = suc (length bs) in
    ap (decode_with maxtext (none, none) (λ this. decode_children fuel maxtext this none))
      (sym (append-nil bs))
    ∙ with-children maxtext fuel (none, none) z [] (omega (arith, zone-Long (none, none) z)) h

-- A text that a chunk can hold.
pub record HasChunk (t : TextData) : Type 0 where
  pub text_nonempty : 1 ≤ length t.text
  pub text_fits : length t.text < 16777216
  pub page_codable :
      (page : Zone) → t.page ≡ some page → IsCodable (length t.text) (none, none) page

-- The bytes of its chunk.
abbrev pub chunk_of : TextData → Bytes
chunk_of t = write24 (length t.text) ++ (t.text ++ encode_page t.page)

frame-not_blank :
    (maxtext : ℕ) (z : Zone) → IsCodable maxtext (none, none) z → is_blank (frame_of z).rect ≡ false
frame-not_blank maxtext (zone ztype rect start length zones) (type, (shape, rest)) = shape

encode_text-chunk_of :
    (c : ℕ) (cs : Bytes) (page : Option Zone)
    → HasChunk (record { text = c ∷ cs; page = page })
    → encode_text (record { text = c ∷ cs; page = page })
      ≡ got tt (chunk_of (record { text = c ∷ cs; page = page }))
unfolding encode_text
encode_text-chunk_of c cs none h = refl
encode_text-chunk_of c cs (some z) h =
    rw (frame-not_blank (suc (length cs)) z (h.page_codable z refl)) refl

read_zones-encode_page :
    (maxtext : ℕ) (page : Option Zone)
    → ((z : Zone) → page ≡ some z → IsCodable maxtext (none, none) z)
    → read_zones maxtext (encode_page page) ≡ got page []
unfolding read_zones write8
read_zones-encode_page maxtext none h = refl
read_zones-encode_page maxtext (some z) h =
    >>=-got (decode_zone maxtext) (λ page. pure (some page)) (encode_zone (none, none) z) [] z
      (decode_zone-encode_zone maxtext z (h z refl))

sizes_fit :
    (text tail : Bytes)
    → 1 ≤ length text
    → (ltb (length (text ++ tail)) (length text) || leb (length text) 0) ≡ false
sizes_fit text tail h = ground (arith, length-append text tail)

text_from-text :
    (text tail : Bytes) (page : Option Zone)
    → 1 ≤ length text
    → read_zones (length text) tail ≡ got page []
    → text_from (length text) (text ++ tail) ≡ got (record { text = text; page = page }) []
unfolding text_from
text_from-text text tail page h e =
    rw
      (
        sizes_fit text tail h,
        text_from,
        drop-append text tail (length text) refl,
        take-append text tail (length text) refl,
      )
      (>>=-got (read_zones (length text)) (λ page. pure (record { text = text; page = page })) tail
        [] page e)

pub decode_text-chunk_of : (t : TextData) → HasChunk t → decode_text (chunk_of t) ≡ got t []
unfolding decode_text
decode_text-chunk_of t h =
    >>=-got read24 text_from (chunk_of t) (t.text ++ encode_page t.page) (length t.text)
      (read24-write24 (length t.text) (t.text ++ encode_page t.page) h.text_fits)
    ∙ text_from-text t.text (encode_page t.page) t.page h.text_nonempty
        (read_zones-encode_page (length t.text) t.page h.page_codable)

-- A text that a chunk can hold is written as one, and read back from it with all of its zones.
pub decode_text-encode_text :
    (t : TextData)
    → HasChunk t
    → (bytes : Bytes) × ((encode_text t ≡ got tt bytes) × (decode_text bytes ≡ got t []))
decode_text-encode_text t h = (chunk_of t, (written t.text t.page h, decode_text-chunk_of t h))
  where
    written :
        (text : Bytes) (page : Option Zone)
        → HasChunk (record { text = text; page = page })
        → encode_text (record { text = text; page = page })
          ≡ got tt (chunk_of (record { text = text; page = page }))
    written [] page h = absurd (omega (arith, h.text_nonempty))
    written (c ∷ cs) page h = encode_text-chunk_of c cs page h
