-- ===== src/Base32/Tests.antt =====
-- Runs of the base32 commands, and instances of the theorems on them.
use macports.Prelude.{◌≡◌, refl, true, codes, Bytes}
use macports.Prelude.Int.{pos}
use macports.Ctype.{is_digit, lower}
use macports.Base32.Hex.{is_xdigit, hex2dec, all_xdigits, bytes_of_hex, hex_of_bytes}
use macports.Base32.Encode.{
  ok, odd_number_of_chars, not_multiple_of_8, padding_in_the_middle, digit, encode_bytes,
  base32_encode,
}
use macports.Base32.Decode.{read_group, join_values, decode_groups, cut_padding, base32_decode}
use macports.Base32.RoundTrip.{base32_decode-encode}

encode_foobar : base32_encode (codes "666f6f626172") ≡ ok (codes "MZXW6YTBOI======")
unfolding base32_encode encode_bytes digit bytes_of_hex all_xdigits hex2dec is_xdigit is_digit
encode_foobar = refl

encode_odd : base32_encode (codes "666") ≡ odd_number_of_chars
unfolding base32_encode
encode_odd = refl

decode_foobar : base32_decode (codes "MZXW6YTBOI======") ≡ ok (codes "666f6f626172")
unfolding base32_decode decode_groups read_group join_values cut_padding hex_of_bytes
decode_foobar = refl

decode_short : base32_decode (codes "MZXW") ≡ not_multiple_of_8
unfolding base32_decode
decode_short = refl

decode_middle : base32_decode (codes "MZ=W6YTB") ≡ padding_in_the_middle (pos 2)
unfolding base32_decode decode_groups read_group
decode_middle = refl

sample-xdigits : all_xdigits (codes "C0ffee") ≡ true
unfolding all_xdigits is_xdigit is_digit
sample-xdigits = refl

base32_decode-encode_example :
    (e : Bytes) × (base32_encode (codes "C0ffee") ≡ ok e)
    × (base32_decode e ≡ ok (lower (codes "C0ffee")))
base32_decode-encode_example = base32_decode-encode (codes "C0ffee") refl sample-xdigits
