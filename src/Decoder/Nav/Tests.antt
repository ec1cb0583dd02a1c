-- ===== src/Decoder/Nav/Tests.antt =====
-- A chunk of two bookmarks, of which the second ends within its URL.
use readflex.Decoder.Bookmarks.{BookMark}
use readflex.Prelude.{ℕ, ◌+◌, List, [], ◌∷◌, Bytes, codes}

abbrev chunk : Bytes
chunk =
    0 ∷ 2 ∷ 1 ∷ 0 ∷ 0 ∷ 1 ∷ b'A' ∷ 0 ∷ 0 ∷ 2 ∷ b'#' ∷ b'1' ∷ 0 ∷ 0 ∷ 0 ∷ 1 ∷ b'B' ∷ 0 ∷ 0 ∷ 9 ∷ b'#'
    ∷ []

abbrev marks : List BookMark
marks =
    record { count = 1; displayname = codes "A"; url = codes "#1" }
    ∷ record {
      count = 0;
      displayname = codes "B";
      url = b'#' ∷ 0 ∷ 52 ∷ 53 ∷ 54 ∷ 55 ∷ 56 ∷ 57 ∷ 58 ∷ [];
    }
    ∷ []

-- What memory held before the texts were read into it.
abbrev stale : ℕ → ℕ
stale i = i + 50

abbrev clear : ℕ → ℕ
clear i = 0
