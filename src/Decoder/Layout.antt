-- ===== src/Decoder/Layout.antt =====
-- Where the zones of a page's text stand, from the one before or from their parent, as
-- `DjVuTXT::Zone::encode` and `decode` of upstream/libdjvu/DjVuText.cpp code it, with `GRect` of GRect.h.
use readflex.Decoder.Zones.{GRect, Zone, zone}
use readflex.Prelude.{
  ℕ, ◌+◌, Bool, ◌||◌, Option, none, some, length, ◌==◌, if◌then◌else◌, ℤ, pos, ◌+ℤ◌, ◌-ℤ◌, leb_ℤ,
}

-- What a zone's coding takes from its parent, or from the zone before it.
pub record Frame : Type 0 where
  pub rect : GRect
  pub start : ℕ
  pub length : ℕ

abbrev pub frame_of : Zone → Frame
frame_of (zone ztype rect start length zones) = record {
  rect = rect;
  start = start;
  length = length;
}

abbrev pub Context : Type 0
Context = Option Frame × Option Frame

-- PAGE, PARAGRAPH and LINE: below the zone before. The others stand on its right.
abbrev pub stands_below : ℕ → Bool
stands_below ztype = ztype == 1 || ztype == 4 || ztype == 5

abbrev pub rect_width : GRect → ℤ
rect_width rect = rect.xmax -ℤ rect.xmin

abbrev pub rect_height : GRect → ℤ
rect_height rect = rect.ymax -ℤ rect.ymin

-- `GRect(x, y, width, height)`.
abbrev pub rect_at : ℤ → ℤ → ℤ → ℤ → GRect
rect_at x y width height = record { xmin = x; ymin = y; xmax = x +ℤ width; ymax = y +ℤ height }

abbrev pub is_blank : GRect → Bool
is_blank rect = leb_ℤ rect.xmax rect.xmin || leb_ℤ rect.ymax rect.ymin

-- The parent and the zone before it, `x` and `width`: the coordinate as it is coded.
unfoldable pub coded_x : ℕ → Context → ℤ → ℤ
coded_x ztype (parent, some prev) x =
    if stands_below ztype then x -ℤ prev.rect.xmin else x -ℤ prev.rect.xmax
coded_x ztype (some parent, none) x = x -ℤ parent.rect.xmin
coded_x ztype (none, none) x = x

unfoldable pub coded_y : ℕ → Context → ℤ → ℤ → ℤ
coded_y ztype (parent, some prev) y height =
    if stands_below ztype then prev.rect.ymin -ℤ (y +ℤ height) else y -ℤ prev.rect.ymin
coded_y ztype (some parent, none) y height = parent.rect.ymax -ℤ (y +ℤ height)
coded_y ztype (none, none) y height = y

unfoldable pub coded_start : Context → ℤ → ℤ
coded_start (parent, some prev) start = start -ℤ pos (prev.start + prev.length)
coded_start (some parent, none) start = start -ℤ pos parent.start
coded_start (none, none) start = start

unfoldable pub placed_x : ℕ → Context → ℤ → ℤ
placed_x ztype (parent, some prev) x =
    if stands_below ztype then x +ℤ prev.rect.xmin else x +ℤ prev.rect.xmax
placed_x ztype (some parent, none) x = x +ℤ parent.rect.xmin
placed_x ztype (none, none) x = x

unfoldable pub placed_y : ℕ → Context → ℤ → ℤ → ℤ
placed_y ztype (parent, some prev) y height =
    if stands_below ztype then prev.rect.ymin -ℤ (y +ℤ height) else y +ℤ prev.rect.ymin
placed_y ztype (some parent, none) y height = parent.rect.ymax -ℤ (y +ℤ height)
placed_y ztype (none, none) y height = y

unfoldable pub placed_start : Context → ℤ → ℤ
placed_start (parent, some prev) start = start +ℤ pos (prev.start + prev.length)
placed_start (some parent, none) start = start +ℤ pos parent.start
placed_start (none, none) start = start
