-- ===== src/Vercomp/Asymmetry.antt =====
-- `vercmp` of base/src/pextlib1.0/vercomp.c with its arguments in both orders.
use macports.Prelude.{ℕ, ◌≡◌, ◌<◌, refl, [], ◌∷◌, Bytes, true, false, arith, All}
use macports.Prelude.Int.{pos}
use macports.Ctype.{is_digit, is_alpha, is_alnum}
use macports.Vercomp.Segments.{
  continue, minus_one, segment, after_segment, skip_separators, skip_zeros, compare_segments,
  compare_digits, compare_round,
}
use macports.Vercomp.Loop.{result, remaining, loop, equal, vercmp}

letter : (c : ℕ) → is_alpha c ≡ true → (is_alnum c ≡ true) × (is_digit c ≡ false)
unfolding is_alnum
letter c h = ground arith

after-letters : (s : Bytes) → All (λ c. is_alpha c ≡ true) s → after_segment is_alpha s ≡ []
unfolding after_segment
after-letters [] h = refl
after-letters (c ∷ s) h = ground (arith, h.0, after-letters s h.1)

zero-class : (is_digit 0 ≡ false) × (is_alpha 0 ≡ false)
unfolding is_digit is_alpha
zero-class = (refl, refl)

letters-round :
    (x : ℕ) (s : Bytes)
    → All (λ c. is_alpha c ≡ true) (x ∷ s)
    → compare_round (x ∷ s) [] ≡ continue [] []
unfolding compare_round segment after_segment compare_segments
letters-round x s h = ground (arith, h.0, letter x h.0, zero-class, after-letters s h.1)

end-round :
    (x : ℕ) (s : Bytes)
    → All (λ c. is_alpha c ≡ true) (x ∷ s)
    → compare_round [] (x ∷ s) ≡ continue [] (x ∷ s)
unfolding compare_round compare_digits compare_segments segment after_segment skip_zeros
end-round x s h = ground (arith, h.0, letter x h.0, zero-class)

-- A separator that letters follow and the separator alone are equal in one order of the arguments and
-- different in the other.
vercmp-asymmetric :
    (c x : ℕ) (s : Bytes)
    → is_alnum c ≡ false
    → 0 < c
    → All (λ d. is_alpha d ≡ true) (x ∷ s)
    → (vercmp (c ∷ x ∷ s) (c ∷ []) ≡ result (pos 0))
      × (vercmp (c ∷ []) (c ∷ x ∷ s) ≡ result minus_one)
unfolding vercmp loop equal skip_separators remaining
vercmp-asymmetric c x s n z h = (
  ground (arith, n, letter x h.0, letters-round x s h),
  ground (arith, n, letter x h.0, end-round x s h),
)
