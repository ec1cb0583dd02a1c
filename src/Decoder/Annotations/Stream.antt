-- ===== src/Decoder/Annotations/Stream.antt =====
-- `anno_fgetc` and `anno_ungetc` as the two ends of a stream of characters.
use readflex.Decoder.Annotations.{Mode, AnnoDat, anno_fgetc, anno_ungetc, anno_stream}
use readflex.Prelude.{
  ℕ, ◌<◌, ◌≡◌, refl, arith, Bool, false, Option, none, some, [], ◌∷◌, ◌++◌, Bytes, length, leb,
}

-- What is still to be read.
unfoldable unread : AnnoDat → Bytes
unfolding anno_stream
unread dat = dat.buf ++ anno_stream dat.compat dat.state dat.s

abbrev first : Bytes → Option ℕ
first [] = none
first (c ∷ _) = some c

abbrev behind : Bytes → Bytes
behind [] = []
behind (_ ∷ s) = s

fgetc-unread :
    (s buf : Bytes) (state : Mode) (compat : Bool) (dat : AnnoDat)
    → dat ≡ record { s = s; buf = buf; state = state; compat = compat }
    → ((anno_fgetc dat).0 ≡ first (unread dat)) × (unread (anno_fgetc dat).1 ≡ behind (unread dat))
unfolding anno_fgetc unread anno_stream
fgetc-unread s (c ∷ buf) state compat dat e = rw e (refl, refl)
fgetc-unread [] [] state compat dat e = rw e (refl, refl)
fgetc-unread (c ∷ s) [] state compat dat e = rw e (refl, refl)

-- `anno_fgetc` gives the first character of what is to be read, and leaves the others: that is what a
-- stream does.
anno_fgetc-unread :
    (dat : AnnoDat)
    → ((anno_fgetc dat).0 ≡ first (unread dat)) × (unread (anno_fgetc dat).1 ≡ behind (unread dat))
anno_fgetc-unread dat = fgetc-unread dat.s dat.buf dat.state dat.compat dat refl

-- A character that is put back is read next, if the buffer has room.
anno_fgetc-anno_ungetc :
    (c : ℕ) (dat : AnnoDat) → length dat.buf < 8 → unread (anno_ungetc c dat) ≡ c ∷ unread dat
unfolding anno_ungetc unread
anno_fgetc-anno_ungetc c dat h =
    let room : leb 8 (length dat.buf) ≡ false = ground arith in rw room refl
