-- ===== src/Base32/Groups.antt =====
-- The groups of base32cmd.c: what `Base32DecodeCmd` reads in the digits of `Base32EncodeCmd`.
use macports.Prelude.{
  ℕ, zero, suc, ◌+◌, ◌*◌, ◌/◌, ◌%◌, ◌≡◌, ◌<◌, refl, [], ◌∷◌, Bytes, Bool, true, false, false≢true,
  not, ◌&&◌, leb, ◌==◌, get_or, arith, All,
}
use native.Mathlib.Numerals.{unary_clauses}
use macports.Base32.Encode.{digit, pad_char, encode_bytes}
use macports.Base32.Decode.{
  decode_map, prepend, read_group, join_values, Groups, decoded, then_bytes, decode_groups,
}

-- Every number below `n` passes the test.
unfoldable pub all_below : (ℕ → Bool) → ℕ → Bool
all_below p zero = true
all_below p (suc n) = p n && all_below p n

pub below-test : (p : ℕ → Bool) (n v : ℕ) → all_below p n ≡ true → v < n → p v ≡ true
unfolding all_below
below-test p zero v h k = absurd (omega arith)
below-test p (suc n) v h k = ground (arith, below-test p n v)

abbrev decodes : ℕ → Bool
decodes v =
    get_or decode_map (digit v) 64 == v && not (digit v == pad_char) && not (leb 128 (digit v))

all-decodes : all_below decodes 32 ≡ true
unfolding all_below digit
all-decodes = refl

pub and-true : (p q : Bool) → (p && q) ≡ true → (p ≡ true) × (q ≡ true)
and-true true q h = (refl, h)
and-true false q h = absurd (false≢true h)

same_number : (m n : ℕ) → (m == n) ≡ true → m ≡ n
same_number m n h = ground (arith, h)

not-true : (p : Bool) → not p ≡ true → p ≡ false
not-true true h = absurd (false≢true h)
not-true false h = refl

digit-decodes :
    (v : ℕ)
    → v < 32
    → (get_or decode_map (digit v) 64 ≡ v)
      × ((digit v == pad_char) ≡ false)
      × (leb 128 (digit v) ≡ false)
digit-decodes v h =
    let (t, l) = and-true _ _ (below-test decodes 32 v all-decodes h) in
    let (e, p) = and-true _ _ t in (same_number _ v e, not-true _ p, not-true _ l)

read_group-plain :
    (j a v : ℕ) (s : Bytes)
    → v < 32
    → get_or decode_map a 64 ≡ v
    → (a == pad_char) ≡ false
    → leb 128 a ≡ false
    → read_group 0 j (a ∷ s) ≡ prepend v (read_group 0 (j + 1) s)
unfolding read_group
read_group-plain j a v s h e p l = let k : (v == 64) ≡ false = ground (arith, h) in rw (p, l, e, k)

-- A digit is read as its value.
read_group-digit :
    (j v : ℕ) (s : Bytes)
    → v < 32
    → read_group 0 j (digit v ∷ s) ≡ prepend v (read_group 0 (j + 1) s)
read_group-digit j v s h =
    let (e, p, l) = digit-decodes v h in read_group-plain j (digit v) v s h e p l

-- The bytes of the groups, with the null bytes that stand for what a last group lacks, and the count
-- of padding.
unfoldable pub padded : Bytes → Groups
padded [] = decoded 0 []
padded (a ∷ []) = decoded 6 (a ∷ 0 ∷ 0 ∷ 0 ∷ 0 ∷ [])
padded (a ∷ b ∷ []) = decoded 4 (a ∷ b ∷ 0 ∷ 0 ∷ 0 ∷ [])
padded (a ∷ b ∷ c ∷ []) = decoded 3 (a ∷ b ∷ c ∷ 0 ∷ 0 ∷ [])
padded (a ∷ b ∷ c ∷ d ∷ []) = decoded 1 (a ∷ b ∷ c ∷ d ∷ 0 ∷ [])
padded (a ∷ b ∷ c ∷ d ∷ e ∷ s) = then_bytes (a ∷ b ∷ c ∷ d ∷ e ∷ []) (padded s)

join :
    (a b c d e : ℕ)
    → a < 256
    → b < 256
    → c < 256
    → d < 256
    → e < 256
    → join_values (
        a / 8
        ∷ (a * 4 + b / 64) % 32
        ∷ b / 2 % 32
        ∷ (b * 16 + c / 16) % 32
        ∷ (c * 2 + d / 128) % 32
        ∷ d / 4 % 32
        ∷ (d * 8 + e / 32) % 32
        ∷ e % 32
        ∷ [])
      ≡ a ∷ b ∷ c ∷ d ∷ e ∷ []
unfolding join_values
join a b c d e ha hb hc hd he =
    let p : ((a / 8) * 8 + ((a * 4 + b / 64) % 32) / 4) % 256 ≡ a = omega arith in
    let q : (((a * 4 + b / 64) % 32) * 64 + (b / 2 % 32) * 2 + ((b * 16 + c / 16) % 32) / 16) % 256
        ≡ b =
      omega arith in
    let r : (((b * 16 + c / 16) % 32) * 16 + ((c * 2 + d / 128) % 32) / 2) % 256 ≡ c =
      omega arith in
    let s : (((c * 2 + d / 128) % 32) * 128 + (d / 4 % 32) * 4 + ((d * 8 + e / 32) % 32) / 8) % 256
        ≡ d =
      omega arith in
    let t : (((d * 8 + e / 32) % 32) * 32 + e % 32) % 256 ≡ e = omega arith in
    rw (p, q, r, s, t) refl

-- The values of the groups, by the number of digits in them.
pub decode-encode :
    (bs : Bytes) → All (λ b. b < 256) bs → decode_groups 0 (encode_bytes bs) ≡ padded bs
unfolding encode_bytes decode_groups padded read_group
decode-encode [] h = refl
decode-encode (a ∷ []) h =
    let bytes : join_values (a / 8 ∷ a * 4 % 32 ∷ 0 ∷ 0 ∷ 0 ∷ 0 ∷ 0 ∷ 0 ∷ [])
        ≡ a ∷ 0 ∷ 0 ∷ 0 ∷ 0 ∷ [] =
      simp unary_clauses at
        (join a 0 0 0 0 h.0 (omega arith) (omega arith) (omega arith) (omega arith)) in
    rw (
      read_group-digit 0 (a / 8) _ (omega arith),
      read_group-digit 1 (a * 4 % 32) _ (omega arith),
      bytes,
    )
decode-encode (a ∷ b ∷ []) h =
    let bytes : join_values
          (a / 8 ∷ (a * 4 + b / 64) % 32 ∷ b / 2 % 32 ∷ b * 16 % 32 ∷ 0 ∷ 0 ∷ 0 ∷ 0 ∷ [])
        ≡ a ∷ b ∷ 0 ∷ 0 ∷ 0 ∷ [] =
      simp unary_clauses at (join a b 0 0 0 h.0 h.1.0 (omega arith) (omega arith) (omega arith)) in
    rw (
      read_group-digit 0 (a / 8) _ (omega arith),
      read_group-digit 1 ((a * 4 + b / 64) % 32) _ (omega arith),
      read_group-digit 2 (b / 2 % 32) _ (omega arith),
      read_group-digit 3 (b * 16 % 32) _ (omega arith),
      bytes,
    )
decode-encode (a ∷ b ∷ c ∷ []) h =
    let bytes : join_values (
          a / 8
          ∷ (a * 4 + b / 64) % 32
          ∷ b / 2 % 32
          ∷ (b * 16 + c / 16) % 32
          ∷ c * 2 % 32
          ∷ 0
          ∷ 0
          ∷ 0
          ∷ [])
        ≡ a ∷ b ∷ c ∷ 0 ∷ 0 ∷ [] =
      simp unary_clauses at (join a b c 0 0 h.0 h.1.0 h.1.1.0 (omega arith) (omega arith)) in
    rw (
      read_group-digit 0 (a / 8) _ (omega arith),
      read_group-digit 1 ((a * 4 + b / 64) % 32) _ (omega arith),
      read_group-digit 2 (b / 2 % 32) _ (omega arith),
      read_group-digit 3 ((b * 16 + c / 16) % 32) _ (omega arith),
      read_group-digit 4 (c * 2 % 32) _ (omega arith),
      bytes,
    )
decode-encode (a ∷ b ∷ c ∷ d ∷ []) h =
    let bytes : join_values (
          a / 8
          ∷ (a * 4 + b / 64) % 32
          ∷ b / 2 % 32
          ∷ (b * 16 + c / 16) % 32
          ∷ (c * 2 + d / 128) % 32
          ∷ d / 4 % 32
          ∷ d * 8 % 32
          ∷ 0
          ∷ [])
        ≡ a ∷ b ∷ c ∷ d ∷ 0 ∷ [] =
      simp unary_clauses at (join a b c d 0 h.0 h.1.0 h.1.1.0 h.1.1.1.0 (omega arith)) in
    rw (
      read_group-digit 0 (a / 8) _ (omega arith),
      read_group-digit 1 ((a * 4 + b / 64) % 32) _ (omega arith),
      read_group-digit 2 (b / 2 % 32) _ (omega arith),
      read_group-digit 3 ((b * 16 + c / 16) % 32) _ (omega arith),
      read_group-digit 4 ((c * 2 + d / 128) % 32) _ (omega arith),
      read_group-digit 5 (d / 4 % 32) _ (omega arith),
      read_group-digit 6 (d * 8 % 32) _ (omega arith),
      bytes,
    )
decode-encode (a ∷ b ∷ c ∷ d ∷ e ∷ s) h = rw (
  read_group-digit 0 (a / 8) _ (omega arith),
  read_group-digit 1 ((a * 4 + b / 64) % 32) _ (omega arith),
  read_group-digit 2 (b / 2 % 32) _ (omega arith),
  read_group-digit 3 ((b * 16 + c / 16) % 32) _ (omega arith),
  read_group-digit 4 ((c * 2 + d / 128) % 32) _ (omega arith),
  read_group-digit 5 (d / 4 % 32) _ (omega arith),
  read_group-digit 6 ((d * 8 + e / 32) % 32) _ (omega arith),
  read_group-digit 7 (e % 32) [] (omega arith),
  join a b c d e h.0 h.1.0 h.1.1.0 h.1.1.1.0 h.1.1.1.1.0,
  decode-encode s h.1.1.1.1.1,
)
