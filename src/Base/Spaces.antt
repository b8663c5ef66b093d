-- ===== src/Base/Spaces.antt =====
-- Characters by their code points, as Python's text methods read them.
use Prim.Native.Nat.{ℕ}
use Prim.Native.String.{String}
use mathlib.Core.Bool.{Bool, ◌&&◌, ◌||◌}
use sentinel_security_platfo.Base.Tests.{nat_eq, leb}
use sentinel_security_platfo.Base.Lists.{any, all, codes, length}

-- str.isspace of one character
abbrev pub is_white : ℕ → Bool
is_white c =
    (leb 9 c && leb c 13)
    || (leb 28 c && leb c 32)
    || nat_eq c 0x85
    || nat_eq c 0xa0
    || nat_eq c 0x1680
    || (leb 0x2000 c && leb c 0x200a)
    || nat_eq c 0x2028
    || nat_eq c 0x2029
    || nat_eq c 0x202f
    || nat_eq c 0x205f
    || nat_eq c 0x3000

-- any(character.isspace() for character in text)
unfoldable pub has_white : String → Bool
unfolding any
has_white text = any is_white (codes text)

-- len(text), in characters
abbrev pub text_length : String → ℕ
text_length text = length (codes text)

abbrev is_hex : ℕ → Bool
is_hex c = (leb b'0' c && leb c b'9') || (leb b'a' c && leb c b'f')

-- 64 characters of "0123456789abcdef"
unfoldable pub is_digest : String → Bool
unfolding all
is_digest d = nat_eq (text_length d) 64 && all is_hex (codes d)
