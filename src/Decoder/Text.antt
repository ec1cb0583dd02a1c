-- ===== src/Decoder/Text.antt =====
-- `DjVuTXT::Zone::encode` and `decode`, `DjVuTXT::encode`, `decode` and `has_valid_zones` of
-- upstream/libdjvu/DjVuText.cpp: the chunk of a page's text, with its zones. Coordinates are integers
-- without a bound: Text/Bounds is about how far those of a chunk can go, which is no further than an
-- `int` in every chunk of less than half a megabyte.
pub mod Trees
pub mod Bounds
pub mod Reads
pub mod Checked
pub mod Pages
pub mod Layer
pub mod Chunks
pub mod Offsets
pub mod RoundTrip
pub mod Encoded
mod Tests
use readflex.Decoder.Layout.{
  Frame, frame_of, Context, stands_below, rect_width, rect_height, rect_at, is_blank, coded_x,
  coded_y, coded_start, placed_x, placed_y, placed_start,
}
use readflex.Decoder.ByteStream.{
  Problem, ReadResult, Reader, got, fails, pure, throw, ◌>>=◌, read8, read16, read24, write8,
  write16, write24, end_of_file, corrupt_text, corrupt_chunk, no_text, out_of_fuel, bad_version,
}
use readflex.Decoder.Zones.{GRect, Zone, zone, Children, no_more, more}
use readflex.Prelude.{
  ℕ, zero, suc, ◌+◌, ◌-◌, ◌*◌, ◌%◌, Bool, true, false, not, ◌&&◌, ◌||◌, Option, none, some, List,
  [], ◌∷◌, ◌++◌, Bytes, length, take, drop, ltb, leb, ◌==◌, if◌then◌else◌, ℤ, pos, negsuc, sub_ℕ,
  ◌+ℤ◌, ◌-ℤ◌, leb_ℤ, ltb_ℤ, pos_part, neg_part,
}

-- `bs.write16(0x8000 + n)`: the low half of the word, in two's complement.
unfoldable pub low_half : ℤ → ℕ
low_half (pos n) = n % 65536
low_half (negsuc n) = 65535 - n % 65536

unfoldable pub write_offset : ℤ → Bytes
unfolding low_half write16
write_offset n = write16 (low_half (pos 32768 +ℤ n))

-- `(int) bs.read16() - 0x8000`.
unfoldable pub read_offset : Reader ℤ
unfolding read16
read_offset = read16 >>= λ n. pure (sub_ℕ n 32768)

abbrev pub size_of : Children → ℕ
size_of no_more = 0
size_of (more z zones) = suc (size_of zones)

-- The fields of a zone as they are coded.
pub record Fields : Type 0 where
  pub x : ℤ
  pub y : ℤ
  pub width : ℤ
  pub height : ℤ
  pub start : ℤ
  pub length : ℕ
  pub size : ℕ

abbrev pub fields_of : Context → Zone → Fields
fields_of context (zone ztype rect start length zones) = record {
  x = coded_x ztype context rect.xmin;
  y = coded_y ztype context rect.ymin (rect_height rect);
  width = rect_width rect;
  height = rect_height rect;
  start = coded_start context (pos start);
  length = length;
  size = size_of zones;
}

unfoldable pub write_fields : Fields → Bytes
unfolding write_offset write24
write_fields f =
    write_offset f.x
    ++ write_offset f.y
    ++ write_offset f.width
    ++ write_offset f.height
    ++ write_offset f.start
    ++ write24 f.length
    ++ write24 f.size

unfoldable mutual
  unfolding write8 write_fields coded_x coded_y coded_start

  pub encode_zone : Context → Zone → Bytes
  encode_zone context (zone ztype rect start length zones) =
      let this : Zone = zone ztype rect start length zones in
      write8 ztype
      ++ write_fields (fields_of context this)
      ++ encode_children (frame_of this) none zones

  pub encode_children : Frame → Option Frame → Children → Bytes
  encode_children parent prev no_more = []
  encode_children parent prev (more z zones) =
      encode_zone (some parent, prev) z ++ encode_children parent (some (frame_of z)) zones

unfoldable pub read_fields : Reader Fields
unfolding read_offset read24
read_fields = do
  x ← read_offset
  y ← read_offset
  width ← read_offset
  height ← read_offset
  start ← read_offset
  length ← read24
  size ← read24
  pure (record {
    x = x;
    y = y;
    width = width;
    height = height;
    start = start;
    length = length;
    size = size;
  })

unfoldable pub read_type : Reader ℕ
unfolding read8
read_type = read8 >>= λ ztype. if ltb ztype 1 || ltb 7 ztype then throw corrupt_text else pure ztype

-- The place of a zone, from its fields.
unfoldable pub placed_rect : ℕ → Context → Fields → GRect
unfolding placed_x placed_y
placed_rect ztype context f =
    rect_at (placed_x ztype context f.x) (placed_y ztype context f.y f.height) f.width f.height

-- The checks, with what follows them.
unfoldable pub checked {ℓ} : {A : Type ℓ} → ℕ → GRect → ℤ → ℕ → (ℕ → Reader A) → Reader A
checked maxtext rect (negsuc start) length rest = throw corrupt_text
checked maxtext rect (pos start) length rest =
    if is_blank rect || ltb maxtext (start + length) then throw corrupt_text else rest start

-- A zone of the type and the fields, given the loop over its children.
unfoldable pub zone_from : ℕ → Context → (Frame → ℕ → Reader Children) → ℕ → Fields → Reader Zone
unfolding placed_rect placed_start checked
zone_from maxtext context children ztype f =
    checked maxtext (placed_rect ztype context f) (placed_start context f.start) f.length λ start.
      do
        zones ←
            children
              (record { rect = placed_rect ztype context f; start = start; length = f.length })
              f.size
        pure (zone ztype (placed_rect ztype context f) start f.length zones)

unfoldable pub decode_with : ℕ → Context → (Frame → ℕ → Reader Children) → Reader Zone
unfolding read_type read_fields zone_from
decode_with maxtext context children = do
  ztype ← read_type
  f ← read_fields
  zone_from maxtext context children ztype f

-- `while (size-- > 0)`: `prev` is the child before.
unfoldable pub decode_children : ℕ → ℕ → Frame → Option Frame → ℕ → Reader Children
unfolding decode_with
decode_children fuel maxtext parent prev zero = pure no_more
decode_children zero maxtext parent prev (suc size) = throw out_of_fuel
decode_children (suc fuel) maxtext parent prev (suc size) = do
  z ← decode_with maxtext (some parent, prev) λ this. decode_children fuel maxtext this none
  zones ← decode_children fuel maxtext parent (some (frame_of z)) size
  pure (more z zones)

-- Every zone takes bytes of the chunk, so that their number is enough fuel.
unfoldable pub decode_zone : ℕ → Reader Zone
unfolding decode_with decode_children
decode_zone maxtext bs =
    decode_with maxtext (none, none) (λ this. decode_children (suc (length bs)) maxtext this none)
      bs

-- `textUTF8` and `page_zone`; of a page without zones, the rectangle is empty.
pub record TextData : Type 0 where
  pub text : Bytes
  pub page : Option Zone

unfoldable pub read_zones : ℕ → Reader (Option Zone)
unfolding read8 decode_zone
read_zones textsize [] = got none []
read_zones textsize (version ∷ bs) =
    if version == 1
    then (decode_zone textsize >>= λ page. pure (some page)) bs
    else fails (bad_version version)

-- What follows the size of the text.
unfoldable pub text_from : ℕ → Reader TextData
unfolding read_zones
text_from textsize bs =
    if ltb (length bs) textsize || leb textsize 0
    then fails corrupt_chunk
    else (read_zones textsize >>= λ page. pure (record { text = take textsize bs; page = page }))
        (drop textsize bs)

unfoldable pub decode_text : Reader TextData
unfolding read24 text_from
decode_text = read24 >>= text_from

abbrev pub is_present : Bytes → Bool
is_present [] = false
is_present (c ∷ cs) = true

unfoldable pub has_valid_zones : TextData → Bool
has_valid_zones t =
    is_present t.text
    && elim t.page [ none ↦ false | some page ↦ not (is_blank (frame_of page).rect) ]

abbrev pub encode_page : Option Zone → Bytes
encode_page none = []
encode_page (some page) = write8 1 ++ encode_zone (none, none) page

-- The bytes that are written, or what is thrown.
unfoldable pub encode_text : TextData → ReadResult (Unit {0})
unfolding write24 has_valid_zones
encode_text t =
    if is_present t.text
    then got tt (
        write24 (length t.text) ++ t.text ++ (if has_valid_zones t then encode_page t.page else []))
    else fails no_text
