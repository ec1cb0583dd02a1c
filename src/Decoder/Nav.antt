-- ===== src/Decoder/Nav.antt =====
-- `DjVuBookMark::decode`, `encode`, and `DjVmNav::decode`, `encode`, of
-- upstream/libdjvu/DjVmNav.cpp: the chunk of bookmarks. The bytes are those that `BSByteStream` unpacks,
-- or is given to pack.
pub mod RoundTrip
pub mod Again
mod Tests
use readflex.Decoder.Bookmarks.{BookMark}
use readflex.Decoder.ByteStream.{
  ReadResult, Reader, got, fails, pure, throw, ◌>>=◌, read8, read16, read24, write8, write16,
  write24, too_many_children,
}
use readflex.Prelude.{
  ℕ, zero, suc, ◌+◌, ◌-◌, ◌*◌, ◌/◌, ◌%◌, Bool, true, false, Option, none, some, List, [], ◌∷◌, ◌++◌,
  Bytes, length, take, drop, map, ltb, leb, ◌==◌, if◌then◌else◌,
}

-- `n` bytes of memory that nothing has been written to, from an index of the buffer on.
pub leftover : (ℕ → ℕ) → ℕ → ℕ → Bytes
leftover stale i zero = []
leftover stale i (suc n) = stale i ∷ leftover stale (suc i) n

-- What a string of `textsize` bytes holds once `bs.read` has filled its buffer. Its length stays
-- `textsize`: where fewer bytes are left, they are followed by a NUL and by what the memory held.
-- Only the last text of a chunk can end so with no exception behind it, so that one buffer is enough.
unfoldable pub read_text : (ℕ → ℕ) → ℕ → Reader Bytes
unfolding leftover
read_text stale textsize bs =
    if leb textsize (length bs)
    then got (take textsize bs) (drop textsize bs)
    else got (bs ++ (0 ∷ leftover stale (length bs + 1) (textsize - length bs - 1))) []

-- The fields behind the displayed name, and those behind the number of children.
unfoldable pub read_url : (ℕ → ℕ) → ℕ → Bytes → Reader BookMark
unfolding read24 read_text
read_url stale count displayname = do
  textsize ← read24
  url ← read_text stale textsize
  pure (record { count = count; displayname = displayname; url = url })

unfoldable pub read_names : (ℕ → ℕ) → ℕ → Reader BookMark
unfolding read16 read_text read_url
read_names stale count = do
  textsize ← read16
  displayname ← read_text stale textsize
  read_url stale count displayname

unfoldable pub read_bookmark : (ℕ → ℕ) → Reader BookMark
unfolding read8 read_names
read_bookmark stale = do count ← read8; counthi ← read8; read_names stale (counthi * 256 + count)

unfoldable pub read_bookmarks : (ℕ → ℕ) → ℕ → Reader (List BookMark)
unfolding read_bookmark
read_bookmarks stale zero = pure []
read_bookmarks stale (suc n) = do
  bookmark ← read_bookmark stale
  bookmarks ← read_bookmarks stale n
  pure (bookmark ∷ bookmarks)

-- `DjVmNav::decode`. `stale` is what memory held before it was allocated: any function.
unfoldable pub read_nav : (ℕ → ℕ) → Reader (List BookMark)
unfolding read16 read_bookmarks
read_nav stale = read16 >>= read_bookmarks stale

-- `DjVuBookMark::encode`, behind the test.
abbrev pub write_bookmark : BookMark → Bytes
write_bookmark b =
    write8 b.count
    ++ (write8 (b.count / 256)
        ++ (write16 (length b.displayname) ++ (b.displayname ++ (write24 (length b.url) ++ b.url))))

unfoldable pub write_bookmarks : List BookMark → ReadResult Bytes
write_bookmarks [] = got [] []
write_bookmarks (b ∷ bs) =
    if ltb 65535 b.count then fails too_many_children else elim (write_bookmarks bs) [
      | got bytes rest ↦ got (write_bookmark b ++ bytes) rest
      | fails problem ↦ fails problem
    ]

-- `DjVmNav::encode`. The number of the bookmarks that it writes is the number that it counts.
unfoldable pub write_nav : List BookMark → ReadResult Bytes
unfolding write_bookmarks
write_nav nav = elim (write_bookmarks nav) [
  | got bytes rest ↦ got (write16 (length nav) ++ bytes) rest
  | fails problem ↦ fails problem
]
