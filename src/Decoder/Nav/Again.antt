-- ===== src/Decoder/Nav/Again.antt =====
-- Any bookmarks that are read can be written.
use readflex.Decoder.Bookmarks.{BookMark}
use readflex.Decoder.ByteStream.Ensures.{Ensures, AreBytes}
use readflex.Decoder.Nav.RoundTrip.{IsStorable}
use readflex.Prelude.{ℕ, ◌<◌, ◌≡◌, List, Bytes, length, All}

-- A text has the length that stands before it, however many bytes are left.
abbrev IsText : ℕ → Bytes → Bytes → Type 0
IsText n text rest = (length text ≡ n) × AreBytes rest

abbrev Stored : BookMark → Bytes → Type 0
Stored b rest = IsStorable b × AreBytes rest

abbrev AllStored : ℕ → List BookMark → Bytes → Type 0
AllStored n nav rest = (length nav ≡ n) × All IsStorable nav

abbrev FewStored : List BookMark → Bytes → Type 0
FewStored nav rest = (length nav < 65536) × All IsStorable nav
