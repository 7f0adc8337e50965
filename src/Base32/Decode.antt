-- ===== src/Base32/Decode.antt =====
-- `Base32DecodeCmd` of base/src/pextlib1.0/base32cmd.c. The shifted parts that the code joins by `|`
-- have no bit in common, so that `+` joins them here; a byte keeps its lowest eight bits.
use macports.Prelude.{
  ℕ, ◌+◌, ◌-◌, ◌*◌, ◌/◌, ◌%◌, [], ◌∷◌, ◌++◌, Bytes, not, ◌||◌, leb, ◌==◌, if◌then◌else◌, get_or,
  length, take,
}
use macports.Prelude.Int.{sub_ℕ}
use macports.Base32.Hex.{hex_of_bytes}
use macports.Base32.Encode.{
  Reply, ok, not_multiple_of_8, invalid_character, padding_in_the_middle, invalid_padding, pad_char,
}

-- The table `map`: 64 marks a character that is not allowed.
abbrev pub decode_map : Bytes
decode_map =
    64 ∷ 64 ∷ 64 ∷ 64 ∷ 64 ∷ 64 ∷ 64 ∷ 64 ∷ 64 ∷ 64 ∷ 64 ∷ 64 ∷ 64 ∷ 64 ∷ 64 ∷ 64 ∷ 64 ∷ 64 ∷ 64
    ∷ 64 ∷ 64 ∷ 64 ∷ 64 ∷ 64 ∷ 64 ∷ 64 ∷ 64 ∷ 64 ∷ 64 ∷ 64 ∷ 64 ∷ 64 ∷ 64 ∷ 64 ∷ 64 ∷ 64 ∷ 64 ∷ 64
    ∷ 64 ∷ 64 ∷ 64 ∷ 64 ∷ 64 ∷ 64 ∷ 64 ∷ 64 ∷ 64 ∷ 64 ∷ 64 ∷ 64 ∷ 26 ∷ 27 ∷ 28 ∷ 29 ∷ 30 ∷ 31 ∷ 64
    ∷ 64 ∷ 64 ∷ 64 ∷ 64 ∷ 64 ∷ 64 ∷ 64 ∷ 64 ∷ 0 ∷ 1 ∷ 2 ∷ 3 ∷ 4 ∷ 5 ∷ 6 ∷ 7 ∷ 8 ∷ 9 ∷ 10 ∷ 11 ∷ 12
    ∷ 13 ∷ 14 ∷ 15 ∷ 16 ∷ 17 ∷ 18 ∷ 19 ∷ 20 ∷ 21 ∷ 22 ∷ 23 ∷ 24 ∷ 25 ∷ 64 ∷ 64 ∷ 64 ∷ 64 ∷ 64 ∷ 64
    ∷ 0 ∷ 1 ∷ 2 ∷ 3 ∷ 4 ∷ 5 ∷ 6 ∷ 7 ∷ 8 ∷ 9 ∷ 10 ∷ 11 ∷ 12 ∷ 13 ∷ 14 ∷ 15 ∷ 16 ∷ 17 ∷ 18 ∷ 19 ∷ 20
    ∷ 21 ∷ 22 ∷ 23 ∷ 24 ∷ 25 ∷ 64 ∷ 64 ∷ 64 ∷ 64 ∷ 64 ∷ []

-- Eight characters' values, or the command's error.
pub data Read : Type 0 where
  values : ℕ → Bytes → Read
  failed : Reply → Read

abbrev pub prepend : ℕ → Read → Read
prepend v (values pad x) = values pad (v ∷ x)
prepend v (failed r) = failed r

-- The loop over the characters of one group. `pad` counts the padding characters of all groups.
unfoldable pub read_group : ℕ → ℕ → Bytes → Read
read_group pad j [] = values pad []
read_group pad j (a ∷ s) =
    let padded = read_group (pad + 1) (j + 1) s in
    let plain = read_group pad (j + 1) s in
    if a == pad_char
    then prepend 0 padded
    else if not (pad == 0)
    then failed (padding_in_the_middle (sub_ℕ j 1))
    else if leb 128 a || get_or decode_map a 64 == 64
    then failed (invalid_character j)
    else prepend (get_or decode_map a 64) plain

-- The five bytes of eight values.
unfoldable pub join_values : Bytes → Bytes
join_values (x0 ∷ x1 ∷ x2 ∷ x3 ∷ x4 ∷ x5 ∷ x6 ∷ x7 ∷ []) =
    ((x0 * 8 + x1 / 4) % 256)
    ∷ ((x1 * 64 + x2 * 2 + x3 / 16) % 256)
    ∷ ((x3 * 16 + x4 / 2) % 256)
    ∷ ((x4 * 128 + x5 * 4 + x6 / 8) % 256)
    ∷ ((x6 * 32 + x7) % 256)
    ∷ []
join_values _ = []

-- What the loop over the groups ends with: the count of padding and the bytes.
pub data Groups : Type 0 where
  decoded : ℕ → Bytes → Groups
  bad : Reply → Groups

abbrev pub then_bytes : Bytes → Groups → Groups
then_bytes out (decoded pad rest) = decoded pad (out ++ rest)
then_bytes out (bad r) = bad r

abbrev pub with_group : Read → (ℕ → Groups) → Groups
with_group (values pad x) rest = then_bytes (join_values x) (rest pad)
with_group (failed r) rest = bad r

unfoldable pub decode_groups : ℕ → Bytes → Groups
decode_groups pad (a ∷ b ∷ c ∷ d ∷ e ∷ f ∷ g ∷ h ∷ s) =
    with_group (read_group pad 0 (a ∷ b ∷ c ∷ d ∷ e ∷ f ∷ g ∷ h ∷ [])) (λ p. decode_groups p s)
decode_groups pad _ = decoded pad []

-- The bytes that the padding leaves, by their number.
unfoldable pub cut_padding : ℕ → Bytes → Reply
cut_padding pad out =
    if pad == 0
    then ok (hex_of_bytes out)
    else if pad == 1
    then ok (hex_of_bytes (take (length out - 1) out))
    else if pad == 3
    then ok (hex_of_bytes (take (length out - 2) out))
    else if pad == 4
    then ok (hex_of_bytes (take (length out - 3) out))
    else if pad == 6
    then ok (hex_of_bytes (take (length out - 4) out))
    else invalid_padding pad

abbrev pub finish : Groups → Reply
finish (decoded pad out) = cut_padding pad out
finish (bad r) = r

unfoldable pub base32_decode : Bytes → Reply
base32_decode buf =
    if not (length buf % 8 == 0) then not_multiple_of_8 else finish (decode_groups 0 buf)
