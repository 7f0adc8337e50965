-- ===== src/Base32/Encode.antt =====
-- `Base32EncodeCmd` of base/src/pextlib1.0/base32cmd.c. The shifted parts that the code joins by `|`
-- have no bit in common, so that `+` joins them here.
use macports.Prelude.{
  ℕ, ◌+◌, ◌*◌, ◌/◌, ◌%◌, [], ◌∷◌, Bytes, not, ◌==◌, if◌then◌else◌, get_or, codes, length,
}
use macports.Prelude.Int.{ℤ}
use macports.Base32.Hex.{all_xdigits, bytes_of_hex}

-- The results of the two commands.
pub data Reply : Type 0 where
  ok : Bytes → Reply
  odd_number_of_chars invalid_hexadecimal not_multiple_of_8 : Reply
  invalid_character : ℕ → Reply
  padding_in_the_middle : ℤ → Reply
  invalid_padding : ℕ → Reply

-- The table `map`.
abbrev pub alphabet : Bytes
alphabet = codes "ABCDEFGHIJKLMNOPQRSTUVWXYZ234567"

unfoldable pub digit : ℕ → ℕ
digit v = get_or alphabet v 0

abbrev pub pad_char : ℕ
pad_char = b'='

-- The loop over groups of five bytes, and the partial group at the end.
unfoldable pub encode_bytes : Bytes → Bytes
encode_bytes [] = []
encode_bytes (a ∷ []) =
    digit (a / 8)
    ∷ digit (a * 4 % 32)
    ∷ pad_char
    ∷ pad_char
    ∷ pad_char
    ∷ pad_char
    ∷ pad_char
    ∷ pad_char
    ∷ []
encode_bytes (a ∷ b ∷ []) =
    digit (a / 8)
    ∷ digit ((a * 4 + b / 64) % 32)
    ∷ digit (b / 2 % 32)
    ∷ digit (b * 16 % 32)
    ∷ pad_char
    ∷ pad_char
    ∷ pad_char
    ∷ pad_char
    ∷ []
encode_bytes (a ∷ b ∷ c ∷ []) =
    digit (a / 8)
    ∷ digit ((a * 4 + b / 64) % 32)
    ∷ digit (b / 2 % 32)
    ∷ digit ((b * 16 + c / 16) % 32)
    ∷ digit (c * 2 % 32)
    ∷ pad_char
    ∷ pad_char
    ∷ pad_char
    ∷ []
encode_bytes (a ∷ b ∷ c ∷ d ∷ []) =
    digit (a / 8)
    ∷ digit ((a * 4 + b / 64) % 32)
    ∷ digit (b / 2 % 32)
    ∷ digit ((b * 16 + c / 16) % 32)
    ∷ digit ((c * 2 + d / 128) % 32)
    ∷ digit (d / 4 % 32)
    ∷ digit (d * 8 % 32)
    ∷ pad_char
    ∷ []
encode_bytes (a ∷ b ∷ c ∷ d ∷ e ∷ s) =
    digit (a / 8)
    ∷ digit ((a * 4 + b / 64) % 32)
    ∷ digit (b / 2 % 32)
    ∷ digit ((b * 16 + c / 16) % 32)
    ∷ digit ((c * 2 + d / 128) % 32)
    ∷ digit (d / 4 % 32)
    ∷ digit ((d * 8 + e / 32) % 32)
    ∷ digit (e % 32)
    ∷ encode_bytes s

unfoldable pub base32_encode : Bytes → Reply
base32_encode digest =
    if length digest % 2 == 1
    then odd_number_of_chars
    else if not (all_xdigits digest)
    then invalid_hexadecimal
    else ok (encode_bytes (bytes_of_hex digest))
