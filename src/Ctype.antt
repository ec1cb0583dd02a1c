-- ===== src/Ctype.antt =====
-- The tests of <ctype.h> in the "C" locale, on the codes 0 to 255. No test but `isascii` depends on
-- what `isprint` and the others say beyond 127: every call that is modelled is guarded by it, or false
-- there.
use readflex.Prelude.{ℕ, ◌+◌, ◌-◌, Bool, ◌&&◌, ◌||◌, ltb, leb, ◌==◌, if◌then◌else◌}

abbrev within : ℕ → ℕ → ℕ → Bool
within lo hi c = leb lo c && leb c hi

abbrev pub is_digit : ℕ → Bool
is_digit c = leb b'0' c && leb c b'9'

abbrev pub is_space : ℕ → Bool
is_space c = c == 0x20 || (leb 9 c && leb c 13)

abbrev pub is_ascii : ℕ → Bool
is_ascii c = ltb c 128

abbrev pub is_print : ℕ → Bool
is_print c = leb 0x20 c && ltb c 0x7f

abbrev pub is_octal : ℕ → Bool
is_octal c = leb b'0' c && leb c b'7'

abbrev pub is_upper : ℕ → Bool
is_upper c = leb b'A' c && leb c b'Z'

unfoldable pub is_xdigit : ℕ → Bool
is_xdigit c = within b'0' b'9' c || within b'a' b'f' c || within b'A' b'F' c

-- `isdigit(c) ? c-'0' : toupper(c)-'A'+10`.
unfoldable pub xdigit_value : ℕ → ℕ
xdigit_value c =
    if within b'0' b'9' c then c - b'0' else if leb b'a' c then c - b'a' + 10 else c - b'A' + 10
