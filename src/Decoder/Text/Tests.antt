-- ===== src/Decoder/Text/Tests.antt =====
-- A page of one line with two words.
use readflex.Decoder.ByteStream.Ensures.{Ensures, AreBytes}
use readflex.Decoder.ByteStream.{got, write8, write16, write24}
use readflex.Decoder.Text.Encoded.{
  HasChunk, decode_text-encode_text, decode_text-chunk_of, chunk_of,
}
use readflex.Decoder.Text.Chunks.{txtz, read_page_text, document_get_pagetext-zone_words}
use readflex.Decoder.Documents.{document_get_pagetext}
use readflex.Decoder.Text.Pages.{IsPage, decode_text-Ensures}
use readflex.Decoder.Text.RoundTrip.{IsCodable}
use readflex.Decoder.Layout.{coded_x, coded_y, coded_start}
use readflex.Decoder.Text.{
  TextData, encode_text, decode_text, write_offset, encode_zone, write_fields, low_half,
}
use readflex.Decoder.Zones.Places.{zone_words}
use readflex.Decoder.Zones.{GRect, Zone, zone, no_more, more}
use readflex.Page.{PageInfo, job_ok}
use readflex.Prelude.{
  ℕ, ◌≤◌, Bool, true, ◌&&◌, ltb, ◌≡◌, refl, subst, Option, some, none, [], ◌∷◌, Bytes, codes, arith,
  length, pos,
}
use readflex.Words.Layer.{words_of}

abbrev corners : ℕ → ℕ → ℕ → ℕ → GRect
corners xmin ymin xmax ymax = record {
  xmin = pos xmin;
  ymin = pos ymin;
  xmax = pos xmax;
  ymax = pos ymax;
}

abbrev line : Zone
line = zone 5 (corners 10 80 60 90) 0 6 (
    more (zone 6 (corners 10 80 30 90) 0 3 no_more)
      (more (zone 6 (corners 35 80 60 90) 3 3 no_more) no_more))

abbrev sheet : Zone
sheet = zone 1 (corners 0 0 100 100) 0 6 (more line no_more)

abbrev sample : TextData
sample = record { text = codes "ab cd "; page = some sheet }

abbrev info : PageInfo
info = record { width = pos 100; height = pos 100; dpi = pos 300; rotation = 0 }

sheet-IsCodable : IsCodable 6 (none, none) sheet
unfolding coded_x coded_y coded_start
sheet-IsCodable = ground arith

same_page : (y z : Zone) → some y ≡ some z → y ≡ z
same_page y z e = ground arith

sample-HasChunk : HasChunk sample
sample-HasChunk = record {
  text_nonempty = omega arith;
  text_fits = omega arith;
  page_codable =
      λ page e. subst (IsCodable 6 (none, none)) (same_page sheet page e) sheet-IsCodable;
}

decode_text-encode_text_example :
    (bytes : Bytes) × ((encode_text sample ≡ got tt bytes) × (decode_text bytes ≡ got sample []))
decode_text-encode_text_example = decode_text-encode_text sample sample-HasChunk

abbrev sample_bytes : Bytes
sample_bytes = chunk_of sample

abbrev are_bytes : Bytes → Bool
are_bytes [] = true
are_bytes (b ∷ bs) = ltb b 256 && are_bytes bs

are_bytes-AreBytes : (bs : Bytes) → are_bytes bs ≡ true → AreBytes bs
are_bytes-AreBytes [] h = tt
are_bytes-AreBytes (b ∷ bs) h = (ground arith, are_bytes-AreBytes bs (ground arith))

sample-AreBytes : AreBytes sample_bytes
unfolding encode_zone write_fields write_offset low_half write8 write16 write24 coded_x coded_y
    coded_start
sample-AreBytes = are_bytes-AreBytes sample_bytes refl

sample-Short : length sample_bytes ≤ 100
unfolding encode_zone write_fields write_offset low_half write8 write16 write24 coded_x coded_y
    coded_start
sample-Short = omega arith

sample-decode_text : decode_text sample_bytes ≡ got sample []
sample-decode_text = decode_text-chunk_of sample sample-HasChunk

decode_text-Ensures_example : Ensures (λ t rest. IsPage 1000000 t) (decode_text sample_bytes)
decode_text-Ensures_example =
    decode_text-Ensures 1000000 sample_bytes sample-AreBytes (omega (arith, sample-Short))

abbrev unpack : Bytes → Option Bytes
unpack packed = some packed

document_get_pagetext-zone_words_example :
    words_of
      (document_get_pagetext job_ok
        (read_page_text unpack (some ((txtz, sample_bytes) ∷ [])))
        (some (codes "word")))
      info
    ≡ zone_words (codes "ab cd ") info 6 sheet
document_get_pagetext-zone_words_example =
    document_get_pagetext-zone_words unpack sample_bytes sample_bytes [] (codes "ab cd ") sheet
      job_ok info refl refl sample-AreBytes (omega (arith, sample-Short)) sample-decode_text
