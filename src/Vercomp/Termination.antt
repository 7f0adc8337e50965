-- ===== src/Vercomp/Termination.antt =====
-- The number of rounds that `vercmp` of base/src/pextlib1.0/vercomp.c takes.
use macports.Prelude.{
  ℕ, zero, suc, ◌≡◌, ◌≢◌, ◌<◌, ◌≤◌, refl, [], ◌∷◌, Bytes, Bool, true, false, length, arith,
}
use macports.Prelude.Int.{ℤ}
use macports.Ctype.{is_digit, is_alpha, is_alnum}
use macports.Vercomp.Segments.{
  Verdict, answer, continue, segment, after_segment, skip_separators, skip_zeros, compare_segments,
  compare_digits, compare_round,
}
use macports.Vercomp.Loop.{Outcome, result, overrun, out_of_fuel, loop, vercmp}

-- A round that goes on leaves at most `n` characters of the first version.
abbrev pub Leaves : ℕ → Verdict → Type 0
Leaves n (answer z) = Unit
Leaves n (continue a b) = length a ≤ n

length-after_segment : (p : ℕ → Bool) (s : Bytes) → length (after_segment p s) ≤ length s
unfolding after_segment
length-after_segment p [] = omega arith
length-after_segment p (c ∷ s) = ground (arith, length-after_segment p s)

-- A segment that is not empty takes at least its first character.
after_segment-lt :
    (p : ℕ → Bool) (c : ℕ) (s : Bytes) → p c ≡ true → length (after_segment p (c ∷ s)) ≤ length s
unfolding after_segment
after_segment-lt p c s h = ground (arith, length-after_segment p s)

compare_segments-Leaves :
    (x y a b : Bytes) (n : ℕ) → length a ≤ n → Leaves n (compare_segments x y a b)
unfolding compare_segments
compare_segments-Leaves [] y a b n h = h
compare_segments-Leaves (c ∷ x) [] a b n h = h
compare_segments-Leaves (c ∷ x) (d ∷ y) a b n h =
    ground (arith, compare_segments-Leaves x y a b n h)

compare_digits-Leaves : (x y a b : Bytes) (n : ℕ) → length a ≤ n → Leaves n (compare_digits x y a b)
unfolding compare_digits
compare_digits-Leaves x y a b n h = ground (arith, compare_segments-Leaves x y a b n h)

-- At the first character of a segment, or at the end.
abbrev pub AtSegment : Bytes → Type 0
AtSegment [] = Unit
AtSegment (c ∷ s) = is_alnum c ≡ true

pub skip-AtSegment : (s : Bytes) → AtSegment (skip_separators s)
unfolding skip_separators
skip-AtSegment [] = tt
skip-AtSegment (c ∷ s) = ground (arith, skip-AtSegment s)

pub length-skip : (s : Bytes) → length (skip_separators s) ≤ length s
unfolding skip_separators
length-skip [] = omega arith
length-skip (c ∷ s) = ground (arith, length-skip s)

alnum-cases : (c : ℕ) → is_alnum c ≡ true → is_alpha c ≡ false → is_digit c ≡ true
unfolding is_alnum
alnum-cases c h k = ground arith

-- The null character is in no class.
zero-class : (is_digit 0 ≡ false) × (is_alpha 0 ≡ false)
unfolding is_digit is_alpha
zero-class = (refl, refl)

pub compare_round-Leaves :
    (a b : Bytes) (n : ℕ) → AtSegment a → length a ≤ suc n → Leaves n (compare_round a b)
unfolding compare_round
compare_round-Leaves [] b n s h = ground (
  arith,
  zero-class,
  length-after_segment is_digit [],
  compare_digits-Leaves (skip_zeros (segment is_digit [])) (skip_zeros (segment is_digit b))
      (after_segment is_digit []) (after_segment is_digit b) n,
)
compare_round-Leaves (c ∷ a) b n s h = ground (
  arith,
  alnum-cases c s,
  after_segment-lt is_alpha c a,
  after_segment-lt is_digit c a,
  compare_segments-Leaves (segment is_alpha (c ∷ a)) (segment is_alpha b)
      (after_segment is_alpha (c ∷ a)) (after_segment is_alpha b) n,
  compare_digits-Leaves (skip_zeros (segment is_digit (c ∷ a))) (skip_zeros (segment is_digit b))
      (after_segment is_digit (c ∷ a)) (after_segment is_digit b) n,
)

loop-terminates : (fuel : ℕ) (a b : Bytes) → length a < fuel → loop fuel a b ≢ out_of_fuel
unfolding loop
loop-terminates zero a b h = absurd (omega arith)
loop-terminates (suc fuel) [] b h = λ e. cc
loop-terminates (suc fuel) (c ∷ a) [] h = λ e. cc
loop-terminates (suc fuel) (c ∷ a) (d ∷ b) h =
    go (compare_round (skip_separators (c ∷ a)) (skip_separators (d ∷ b)))
      (compare_round-Leaves (skip_separators (c ∷ a)) (skip_separators (d ∷ b)) (length a)
        (skip-AtSegment (c ∷ a)) (length-skip (c ∷ a)))
      (loop-terminates fuel)
  where
    go :
        (v : Verdict)
        → Leaves (length a) v
        → ((a' b' : Bytes) → length a' < fuel → loop fuel a' b' ≢ out_of_fuel)
        → (elim v [ answer z ↦ result z | continue a' b' ↦ loop fuel a' b' ]) ≢ out_of_fuel
    go (answer z) l ih = λ e. cc
    go (continue a' b') l ih = ih a' b' (omega arith)

loop-no_overrun : (fuel : ℕ) (a b : Bytes) → loop fuel a b ≢ overrun
unfolding loop
loop-no_overrun zero a b = λ e. cc
loop-no_overrun (suc fuel) [] b = λ e. cc
loop-no_overrun (suc fuel) (c ∷ a) [] = λ e. cc
loop-no_overrun (suc fuel) (c ∷ a) (d ∷ b) =
    go (compare_round (skip_separators (c ∷ a)) (skip_separators (d ∷ b))) (loop-no_overrun fuel)
  where
    go :
        (v : Verdict)
        → ((a' b' : Bytes) → loop fuel a' b' ≢ overrun)
        → (elim v [ answer z ↦ result z | continue a' b' ↦ loop fuel a' b' ]) ≢ overrun
    go (answer z) ih = λ e. cc
    go (continue a' b') ih = ih a' b'

outcome-result : (o : Outcome) → o ≢ out_of_fuel → o ≢ overrun → (z : ℤ) × (o ≡ result z)
outcome-result (result z) h k = (z, refl)
outcome-result overrun h k = absurd (k refl)
outcome-result out_of_fuel h k = absurd (h refl)

-- `vercmp` of pextlib returns a number on all pairs of versions: its loop ends within one round for
-- each character of the first version, and one more, and reads nothing past the ends.
pub vercmp-total : (a b : Bytes) → (z : ℤ) × (vercmp a b ≡ result z)
unfolding vercmp
vercmp-total a b =
    outcome-result (vercmp a b) (ground (arith, loop-terminates (suc (length a)) a b (omega arith)))
      (ground (arith, loop-no_overrun (suc (length a)) a b))
