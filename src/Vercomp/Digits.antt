-- ===== src/Vercomp/Digits.antt =====
-- The digit segments in `vercmp` of vercomp.c, and the numbers that they stand for.
use macports.Prelude.{
  ℕ, ◌+◌, ◌-◌, ◌*◌, ◌^◌, ◌≡◌, ◌<◌, ◌≤◌, refl, ap, [], ◌∷◌, Bytes, length, arith, All, compare,
  Ordering, ◌==◌, inl, inr, Bool-cases,
}
use native.Mathlib.Nat.{pow-suc, pow-le-pow_right}
use macports.Prelude.Int.{sign}
use macports.Vercomp.Segments.{
  Verdict, answer, continue, skip_zeros, compare_segments, compare_digits,
}

-- The number that a string of digits stands for.
unfoldable pub value : Bytes → ℕ
value [] = 0
value (c ∷ s) = (c - b'0') * 10 ^ length s + value s

abbrev IsDigit : ℕ → Type 0
IsDigit c = (b'0' ≤ c) × (c ≤ b'9')

-- What a verdict says of the two segments that are compared.
abbrev pub order : Verdict → Ordering
order (answer z) = sign z
order (continue a b) = Ordering.eq

skip_zeros-All : (s : Bytes) → All IsDigit s → All IsDigit (skip_zeros s)
unfolding skip_zeros
skip_zeros-All [] h = tt
skip_zeros-All (c ∷ s) h = elim (Bool-cases (c == b'0')) [
  | inl e ↦ rw e (skip_zeros-All s h.1)
  | inr e ↦ rw e h
]

value-skip_zeros : (s : Bytes) → value (skip_zeros s) ≡ value s
unfolding value skip_zeros
value-skip_zeros [] = refl
value-skip_zeros (c ∷ s) = ground (arith, value-skip_zeros s)

value-lt : (s : Bytes) → All IsDigit s → value s < 10 ^ length s
unfolding value
value-lt [] h = omega arith
value-lt (c ∷ s) h = grind (arith, value-lt s h.1, pow-suc 10 (length s))

-- A greater digit in front decides.
lead-lt : (p q w u v : ℕ) → p < q → u < w → p * w + u < q * w + v
lead-lt p q w u v h k = grind arith

order-segments :
    (x y a b : Bytes)
    → All IsDigit x
    → All IsDigit y
    → length x ≡ length y
    → order (compare_segments x y a b) ≡ compare (value x) (value y)
unfolding value compare_segments
order-segments [] [] a b h k e = refl
order-segments [] (d ∷ y) a b h k e = absurd (omega arith)
order-segments (c ∷ x) [] a b h k e = absurd (omega arith)
order-segments (c ∷ x) (d ∷ y) a b h k e =
    let n : length x ≡ length y = omega arith in
    ground (
      arith,
      order-segments x y a b h.1 k.1 n,
      lead-lt (c - b'0') (d - b'0') (10 ^ length x) (value x) (value y),
      lead-lt (d - b'0') (c - b'0') (10 ^ length x) (value y) (value x),
      value-lt x h.1,
      value-lt y k.1,
      ap (λ m. 10 ^ m) n,
    )

-- A string of digits that does not begin with a zero.
abbrev NoLeadingZero : Bytes → Type 0
NoLeadingZero [] = Unit
NoLeadingZero (c ∷ s) = b'0' < c

skip_zeros-NoLeadingZero : (s : Bytes) → All IsDigit s → NoLeadingZero (skip_zeros s)
unfolding skip_zeros
skip_zeros-NoLeadingZero [] h = tt
skip_zeros-NoLeadingZero (c ∷ s) h = ground (arith, h.0, skip_zeros-NoLeadingZero s h.1)

longer-gt :
    (x y : Bytes)
    → All IsDigit x
    → All IsDigit y
    → NoLeadingZero x
    → length y < length x
    → value y < value x
unfolding value
longer-gt [] y h k z l = absurd (omega arith)
longer-gt (c ∷ x) y h k z l =
    let p : 10 ^ length y ≤ 10 ^ length x = pow-le-pow_right (omega arith) (omega arith) in
    grind (arith, value-lt y k, p)

-- Two digit segments, whatever their leading zeros, compare as the numbers that they stand for: the
-- sign of the answer is the order of the numbers, where a round that goes on counts as equality.
pub order-digits :
    (x y a b : Bytes)
    → All IsDigit x
    → All IsDigit y
    → order (compare_digits (skip_zeros x) (skip_zeros y) a b) ≡ compare (value x) (value y)
unfolding compare_digits
order-digits x y a b h k =
    let zx = skip_zeros-NoLeadingZero x h in
    let zy = skip_zeros-NoLeadingZero y k in
    let hx = skip_zeros-All x h in
    let hy = skip_zeros-All y k in
    ground (
      arith,
      value-skip_zeros x,
      value-skip_zeros y,
      longer-gt (skip_zeros x) (skip_zeros y) hx hy zx,
      longer-gt (skip_zeros y) (skip_zeros x) hy hx zy,
      order-segments (skip_zeros x) (skip_zeros y) a b hx hy,
    )
