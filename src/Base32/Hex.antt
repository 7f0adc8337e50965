-- ===== src/Base32/Hex.antt =====
-- Hexadecimal strings in base/src/pextlib1.0/base32cmd.c.
use macports.Prelude.{
  ℕ, ◌+◌, ◌-◌, ◌*◌, ◌/◌, ◌%◌, [], ◌∷◌, Bytes, Bool, true, ◌&&◌, ◌||◌, leb, if◌then◌else◌, get_or,
  codes,
}
use macports.Ctype.{is_digit}

-- isxdigit(3)
unfoldable pub is_xdigit : ℕ → Bool
unfolding is_digit
is_xdigit c = is_digit c || leb b'a' c && leb c b'f' || leb b'A' c && leb c b'F'

unfoldable pub hex2dec : ℕ → ℕ
hex2dec c =
    if leb b'0' c && leb c b'9'
    then c - b'0'
    else if leb b'a' c && leb c b'f'
    then c - b'a' + 10
    else if leb b'A' c && leb c b'F'
    then c - b'A' + 10
    else 0

unfoldable pub all_xdigits : Bytes → Bool
all_xdigits [] = true
all_xdigits (c ∷ s) = is_xdigit c && all_xdigits s

-- The bytes of an even number of digits: `(hi << 4) | lo`, in a byte.
unfoldable pub bytes_of_hex : Bytes → Bytes
bytes_of_hex (hi ∷ lo ∷ s) = (hex2dec hi * 16 + hex2dec lo) ∷ bytes_of_hex s
bytes_of_hex _ = []

-- The table `hex` of `Base32DecodeCmd`.
abbrev pub hex_digits : Bytes
hex_digits = codes "0123456789abcdef"

unfoldable pub hex_of_bytes : Bytes → Bytes
hex_of_bytes [] = []
hex_of_bytes (b ∷ s) = get_or hex_digits (b / 16) 0 ∷ get_or hex_digits (b % 16) 0 ∷ hex_of_bytes s
