-- ===== src/Base32/RoundTrip.antt =====
-- `Base32DecodeCmd` after `Base32EncodeCmd`, in base/src/pextlib1.0/base32cmd.c.
use macports.Prelude.{
  ℕ, suc, ◌+◌, ◌-◌, ◌*◌, ◌/◌, ◌%◌, ◌≡◌, ◌<◌, refl, sym, ap, ◌∙◌, [], ◌∷◌, ◌++◌, Bytes, Bool, true,
  false, false≢true, not, ◌||◌, ◌==◌, get_or, length, take, arith, All, append_assoc, length-append,
}
use macports.Ctype.{is_digit, is_upper, tolower, lower}
use macports.Base32.Hex.{is_xdigit, hex2dec, all_xdigits, bytes_of_hex, hex_digits, hex_of_bytes}
use macports.Base32.Encode.{ok, encode_bytes, base32_encode}
use macports.Base32.Decode.{Groups, decoded, bad, then_bytes, cut_padding, finish, base32_decode}
use macports.Base32.Groups.{all_below, below-test, padded, decode-encode, and-true}

take-append : (xs z : Bytes) → take (length (xs ++ z) - length z) (xs ++ z) ≡ xs
take-append [] z = let e : length z - length z ≡ 0 = omega arith in rw e
take-append (x ∷ xs) z =
    let e : suc (length (xs ++ z)) - length z ≡ suc (length (xs ++ z) - length z) =
      omega (arith, length-append xs z) in
    rw (e, take-append xs z)

take-front :
    (xs ys z : Bytes) → take (length (xs ++ (ys ++ z)) - length z) (xs ++ (ys ++ z)) ≡ xs ++ ys
take-front xs ys z = rw (sym (append_assoc xs ys z)) (take-append (xs ++ ys) z)

-- The digits and the padding fill the buffer of `((nbuf+4)/5)*8` characters, no more and no less.
length-encode : (bs : Bytes) → length (encode_bytes bs) ≡ (length bs + 4) / 5 * 8
unfolding encode_bytes
length-encode [] = refl
length-encode (a ∷ []) = refl
length-encode (a ∷ b ∷ []) = refl
length-encode (a ∷ b ∷ c ∷ []) = refl
length-encode (a ∷ b ∷ c ∷ d ∷ []) = refl
length-encode (a ∷ b ∷ c ∷ d ∷ e ∷ s) = omega (arith, length-encode s)

multiple_of_8 : (bs : Bytes) → length (encode_bytes bs) % 8 ≡ 0
multiple_of_8 bs = omega (arith, length-encode bs)

then-then : (xs ys : Bytes) (g : Groups) → then_bytes xs (then_bytes ys g) ≡ then_bytes (xs ++ ys) g
then-then xs ys (decoded pad rest) = ap (decoded pad) (sym (append_assoc xs ys rest))
then-then xs ys (bad r) = refl

cut-padded : (bs xs : Bytes) → finish (then_bytes xs (padded bs)) ≡ ok (hex_of_bytes (xs ++ bs))
unfolding padded cut_padding
cut-padded [] xs = refl
cut-padded (a ∷ []) xs = ap (λ r. ok (hex_of_bytes r)) (take-front xs (a ∷ []) (0 ∷ 0 ∷ 0 ∷ 0 ∷ []))
cut-padded (a ∷ b ∷ []) xs =
    ap (λ r. ok (hex_of_bytes r)) (take-front xs (a ∷ b ∷ []) (0 ∷ 0 ∷ 0 ∷ []))
cut-padded (a ∷ b ∷ c ∷ []) xs =
    ap (λ r. ok (hex_of_bytes r)) (take-front xs (a ∷ b ∷ c ∷ []) (0 ∷ 0 ∷ []))
cut-padded (a ∷ b ∷ c ∷ d ∷ []) xs =
    ap (λ r. ok (hex_of_bytes r)) (take-front xs (a ∷ b ∷ c ∷ d ∷ []) (0 ∷ []))
cut-padded (a ∷ b ∷ c ∷ d ∷ e ∷ s) xs =
    let five = a ∷ b ∷ c ∷ d ∷ e ∷ [] in
    ap finish (then-then xs five (padded s))
    ∙ cut-padded s (xs ++ five)
    ∙ ap (λ r. ok (hex_of_bytes r)) (append_assoc xs five s)

then-nothing : (g : Groups) → then_bytes [] g ≡ g
then-nothing (decoded pad out) = refl
then-nothing (bad r) = refl

-- A digit in lower case comes back.
abbrev digit_returns : ℕ → Bool
digit_returns c = not (is_xdigit c) || get_or hex_digits (hex2dec c) 0 == tolower c

all-digit_returns : all_below digit_returns 128 ≡ true
unfolding all_below is_xdigit hex2dec tolower is_digit is_upper
all-digit_returns = refl

xdigit-lt : (c : ℕ) → is_xdigit c ≡ true → (c < 128) × (hex2dec c < 16)
unfolding is_xdigit hex2dec is_digit
xdigit-lt c h = (ground (arith, h), ground (arith, h))

digit-returns : (c : ℕ) → is_xdigit c ≡ true → get_or hex_digits (hex2dec c) 0 ≡ tolower c
digit-returns c h =
    let t = below-test digit_returns 128 c all-digit_returns (xdigit-lt c h).0 in go _ _ h t
  where
    go : (p : Bool) (n : ℕ) → p ≡ true → (not p || n == tolower c) ≡ true → n ≡ tolower c
    go true n e t = ground (arith, t)
    go false n e t = absurd (false≢true e)

bytes-lt : (h : Bytes) → all_xdigits h ≡ true → All (λ b. b < 256) (bytes_of_hex h)
unfolding all_xdigits bytes_of_hex
bytes-lt [] e = tt
bytes-lt (c ∷ []) e = tt
bytes-lt (c ∷ d ∷ h) e =
    let (x, t) = and-true (is_xdigit c) _ e in
    let (y, r) = and-true (is_xdigit d) _ t in
    let p = (xdigit-lt c x).1 in let q = (xdigit-lt d y).1 in (omega arith, bytes-lt h r)

hex-bytes :
    (h : Bytes) → length h % 2 ≡ 0 → all_xdigits h ≡ true → hex_of_bytes (bytes_of_hex h) ≡ lower h
unfolding all_xdigits bytes_of_hex hex_of_bytes lower
hex-bytes [] k e = refl
hex-bytes (c ∷ []) k e = absurd (omega arith)
hex-bytes (c ∷ d ∷ h) k e =
    let (x, t) = and-true (is_xdigit c) _ e in
    let (y, r) = and-true (is_xdigit d) _ t in
    let p = (xdigit-lt d y).1 in
    let hi : (hex2dec c * 16 + hex2dec d) / 16 ≡ hex2dec c = omega arith in
    let lo : (hex2dec c * 16 + hex2dec d) % 16 ≡ hex2dec d = omega arith in
    rw (hi, lo, digit-returns c x, digit-returns d y, hex-bytes h (omega arith) r)

-- `base32_encode` encodes every string of an even number of hexadecimal digits, and `base32_decode`
-- gives the digits back, in lower case.
pub base32_decode-encode :
    (h : Bytes)
    → length h % 2 ≡ 0
    → all_xdigits h ≡ true
    → (e : Bytes) × (base32_encode h ≡ ok e) × (base32_decode e ≡ ok (lower h))
unfolding base32_encode base32_decode
base32_decode-encode h k e = (
  encode_bytes (bytes_of_hex h),
  rw (k, e),
  rw (multiple_of_8 (bytes_of_hex h), decode-encode (bytes_of_hex h) (bytes-lt h e))
      (ap finish (sym (then-nothing (padded (bytes_of_hex h))))
        ∙ cut-padded (bytes_of_hex h) []
        ∙ ap ok (hex-bytes h k e)),
)
