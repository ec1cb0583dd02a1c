-- ===== src/Decoder/Nav/RoundTrip.antt =====
-- Bookmarks that are written and read again.
use readflex.Decoder.Bookmarks.{BookMark}
use readflex.Decoder.ByteStream.Numbers.{read16-write16, read24-write24}
use readflex.Decoder.ByteStream.{
  got, pure, ◌>>=◌, >>=-got, read16, read24, write8, write16, write24,
}
use readflex.Decoder.Nav.{
  read_text, read_url, read_names, read_bookmark, read_bookmarks, read_nav, write_bookmark,
  write_bookmarks, write_nav,
}
use readflex.Prelude.{
  ℕ, ◌+◌, ◌*◌, ◌/◌, ◌%◌, ◌<◌, ◌≡◌, refl, ap, ◌∙◌, List, [], ◌∷◌, ◌++◌, append_assoc, Bytes, length,
  length-append, leb, true, take-append, drop-append, All, arith,
}

-- What the chunk has room for.
pub record IsStorable (b : BookMark) : Type 0 where
  pub count_fits : b.count < 65536
  pub displayname_fits : length b.displayname < 65536
  pub url_fits : length b.url < 16777216

read_text-text :
    (stale : ℕ → ℕ) (text rest : Bytes)
    → read_text stale (length text) (text ++ rest) ≡ got text rest
unfolding read_text
read_text-text stale text rest =
    let enough : leb (length text) (length (text ++ rest)) ≡ true =
      ground (arith, length-append text rest) in
    rw (enough, take-append text rest (length text) refl, drop-append text rest (length text) refl)
      refl

read_url-written :
    (stale : ℕ → ℕ) (b : BookMark) (rest : Bytes)
    → IsStorable b
    → read_url stale b.count b.displayname (write24 (length b.url) ++ (b.url ++ rest)) ≡ got b rest
unfolding read_url
read_url-written stale b rest h =
    >>=-got read24
      (λ n. read_text stale n >>= λ url.
        pure (record { count = b.count; displayname = b.displayname; url = url }))
      (write24 (length b.url) ++ (b.url ++ rest)) (b.url ++ rest) (length b.url)
      (read24-write24 (length b.url) (b.url ++ rest) h.url_fits)
    ∙ >>=-got (read_text stale (length b.url))
        (λ url. pure (record { count = b.count; displayname = b.displayname; url = url }))
        (b.url ++ rest) rest b.url (read_text-text stale b.url rest)

abbrev names_of : BookMark → Bytes → Bytes
names_of b rest = b.displayname ++ (write24 (length b.url) ++ (b.url ++ rest))

read_names-written :
    (stale : ℕ → ℕ) (b : BookMark) (rest : Bytes)
    → IsStorable b
    → read_names stale b.count (write16 (length b.displayname) ++ names_of b rest) ≡ got b rest
unfolding read_names
read_names-written stale b rest h =
    >>=-got read16 (λ n. read_text stale n >>= read_url stale b.count)
      (write16 (length b.displayname) ++ names_of b rest) (names_of b rest) (length b.displayname)
      (read16-write16 (length b.displayname) (names_of b rest) h.displayname_fits)
    ∙ >>=-got (read_text stale (length b.displayname)) (read_url stale b.count) (names_of b rest)
        (write24 (length b.url) ++ (b.url ++ rest)) b.displayname
        (read_text-text stale b.displayname (write24 (length b.url) ++ (b.url ++ rest)))
    ∙ read_url-written stale b rest h

write_bookmark-append :
    (b : BookMark) (rest : Bytes)
    → write_bookmark b ++ rest
      ≡ write8 b.count
        ++ (write8 (b.count / 256) ++ (write16 (length b.displayname) ++ names_of b rest))
write_bookmark-append b rest = simp append_assoc refl

two_bytes : (n : ℕ) → n < 65536 → n / 256 % 256 * 256 + n % 256 ≡ n
two_bytes n h = omega arith

read_bookmark-write_bookmark :
    (stale : ℕ → ℕ) (b : BookMark) (rest : Bytes)
    → IsStorable b
    → read_bookmark stale (write_bookmark b ++ rest) ≡ got b rest
unfolding read_bookmark write8
read_bookmark-write_bookmark stale b rest h =
    ap (read_bookmark stale) (write_bookmark-append b rest)
    ∙ ap (λ (count : ℕ). read_names stale count (write16 (length b.displayname) ++ names_of b rest))
        (two_bytes b.count h.count_fits)
    ∙ read_names-written stale b rest h

-- The bytes of the bookmarks.
abbrev pub bytes_of : List BookMark → Bytes
bytes_of [] = []
bytes_of (b ∷ bs) = write_bookmark b ++ bytes_of bs

write_bookmarks-bytes_of :
    (nav : List BookMark) → All IsStorable nav → write_bookmarks nav ≡ got (bytes_of nav) []
unfolding write_bookmarks
write_bookmarks-bytes_of [] hs = refl
write_bookmarks-bytes_of (b ∷ bs) (h, hs) =
    let count_fits : b.count < 65536 = h.count_fits in
    ground (arith, write_bookmarks-bytes_of bs hs)

read_bookmarks-bytes_of :
    (stale : ℕ → ℕ) (nav : List BookMark)
    → All IsStorable nav
    → read_bookmarks stale (length nav) (bytes_of nav) ≡ got nav []
unfolding read_bookmarks
read_bookmarks-bytes_of stale [] hs = refl
read_bookmarks-bytes_of stale (b ∷ bs) (h, hs) =
    >>=-got (read_bookmark stale) (λ b. read_bookmarks stale (length bs) >>= λ bs. pure (b ∷ bs))
      (write_bookmark b ++ bytes_of bs) (bytes_of bs) b
      (read_bookmark-write_bookmark stale b (bytes_of bs) h)
    ∙ >>=-got (read_bookmarks stale (length bs)) (λ bs. pure (b ∷ bs)) (bytes_of bs) [] bs
        (read_bookmarks-bytes_of stale bs hs)

-- Bookmarks that the chunk has room for are written, and are read back from what is written.
pub read_nav-write_nav :
    (stale : ℕ → ℕ) (nav : List BookMark)
    → length nav < 65536
    → All IsStorable nav
    → (bytes : Bytes) × ((write_nav nav ≡ got bytes []) × (read_nav stale bytes ≡ got nav []))
unfolding write_nav read_nav
read_nav-write_nav stale nav few hs = (
  write16 (length nav) ++ bytes_of nav,
  (
    rw (write_bookmarks-bytes_of nav hs, write_nav) refl,
    >>=-got read16 (read_bookmarks stale) (write16 (length nav) ++ bytes_of nav) (bytes_of nav)
          (length nav) (read16-write16 (length nav) (bytes_of nav) few)
        ∙ read_bookmarks-bytes_of stale nav hs,
  ),
)
