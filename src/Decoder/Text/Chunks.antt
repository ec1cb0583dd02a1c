-- ===== src/Decoder/Text/Chunks.antt =====
-- `DjVuText::decode` of upstream/libdjvu/DjVuText.cpp, and what `ddjvu_document_get_pagetext` of
-- ddjvuapi.cpp has of it. The chunks are those that `DjVuFile::get_text` copies, each with its name;
-- `unpack` is what `BSByteStream` reads of packed data, or none if it throws.
use readflex.Decoder.ByteStream.Ensures.{AreBytes}
use readflex.Decoder.ByteStream.{got, fails}
use readflex.Decoder.Documents.{
  Answer, failed, answer, PageText, missing, textless, page_text, document_get_pagetext,
}
use readflex.Decoder.Text.Layer.{decode_text-zone_words}
use readflex.Decoder.Text.{TextData, decode_text}
use readflex.Decoder.Zones.Places.{zone_words}
use readflex.Decoder.Zones.{Zone, zone, no_more, pagetext_sub, get_pagetext}
use readflex.Page.{PageInfo, Status, is_ok}
use readflex.Prelude.{
  ◌≤◌, ◌≡◌, refl, ap, ◌∙◌, true, Option, none, some, List, [], ◌∷◌, Bytes, codes, same, length, pos,
  if◌then◌else◌,
}
use readflex.Words.Layer.{words_of}

abbrev pub txta : Bytes
txta = codes "TXTa"

abbrev pub txtz : Bytes
txtz = codes "TXTz"

-- One text of a page: a second one is thrown out, and so is one that cannot be decoded.
abbrev pub add_text : Option TextData → Option Bytes → Answer (Option TextData)
add_text (some txt) bytes = failed
add_text none none = failed
add_text none (some bs) = elim (decode_text bs) [
  | got t rest ↦ answer (some t)
  | fails problem ↦ failed
]

-- `chkid == "TXTa"` and `chkid == "TXTz"`.
unfoldable pub add_chunk :
    (Bytes → Option Bytes) → Option TextData → Bytes × Bytes → Answer (Option TextData)
add_chunk unpack txt (chkid, bytes) =
    if same chkid txta
    then add_text txt (some bytes)
    else if same chkid txtz
    then add_text txt (unpack bytes)
    else answer txt

unfoldable pub text_chunks :
    (Bytes → Option Bytes) → Option TextData → List (Bytes × Bytes) → Answer (Option TextData)
unfolding add_chunk
text_chunks unpack txt [] = answer txt
text_chunks unpack txt (chunk ∷ chunks) = elim (add_chunk unpack txt chunk) [
  | failed ↦ failed
  | answer txt' ↦ text_chunks unpack txt' chunks
]

-- The zone of a page as it is made.
abbrev pub empty_zone : Zone
empty_zone = zone 1 (record { xmin = pos 0; ymin = pos 0; xmax = pos 0; ymax = pos 0 }) 0 0 no_more

abbrev pub with_text : Answer (Option TextData) → Answer PageText
with_text failed = failed
with_text (answer none) = answer textless
with_text (answer (some t)) =
    answer (page_text t.text (elim t.page [ none ↦ empty_zone | some page ↦ page ]))

-- A file that is not there or has no data yet, a file with no chunk of text, and one with some.
unfoldable pub read_page_text :
    (Bytes → Option Bytes) → Option (List (Bytes × Bytes)) → Answer PageText
unfolding text_chunks
read_page_text unpack none = answer missing
read_page_text unpack (some []) = answer textless
read_page_text unpack (some (chunk ∷ chunks)) = with_text (text_chunks unpack none (chunk ∷ chunks))

module _ (unpack : Bytes → Option Bytes) (packed bs rest text : Bytes) (page : Zone) where
  add_chunk-txtz : add_chunk unpack none (txtz, packed) ≡ add_text none (unpack packed)
  unfolding add_chunk same
  add_chunk-txtz = refl

  read_page_text-chunk :
      add_chunk unpack none (txtz, packed)
        ≡ answer (some (record { text = text; page = some page }))
      → read_page_text unpack (some ((txtz, packed) ∷ [])) ≡ answer (page_text text page)
  unfolding read_page_text text_chunks
  read_page_text-chunk e = rw (e, text_chunks, with_text) refl

  read_page_text-txtz :
      unpack packed ≡ some bs
      → decode_text bs ≡ got (record { text = text; page = some page }) rest
      → read_page_text unpack (some ((txtz, packed) ∷ [])) ≡ answer (page_text text page)
  read_page_text-txtz u d =
      read_page_text-chunk (add_chunk-txtz ∙ ap (add_text none) u ∙ rw (d, add_text) refl)

  word_detail : get_pagetext text page (some (codes "word")) ≡ pagetext_sub text page 6
  unfolding get_pagetext same
  word_detail = refl

  -- On a document that is decoded, what the adapter collects of a page whose text is packed in one chunk
  -- are the words of the page's zones, in their order, each at its zone's place: for every chunk that
  -- unpacks to at most 139263 bytes and is decoded, as no coordinate then leaves the decoder's numbers.
  pub document_get_pagetext-zone_words :
      (status : Status) (info : PageInfo)
      → is_ok status ≡ true
      → unpack packed ≡ some bs
      → AreBytes bs
      → length bs ≤ 139263
      → decode_text bs ≡ got (record { text = text; page = some page }) rest
      → words_of
          (document_get_pagetext status
            (read_page_text unpack (some ((txtz, packed) ∷ [])))
            (some (codes "word")))
          info
        ≡ zone_words text info 6 page
  unfolding document_get_pagetext
  document_get_pagetext-zone_words status info ok u h short d =
      rw (read_page_text-txtz u d, ok, word_detail)
        (decode_text-zone_words bs rest text page info 6 h short d)
