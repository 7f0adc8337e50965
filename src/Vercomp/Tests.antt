-- ===== src/Vercomp/Tests.antt =====
-- Runs of `vercmp` of vercomp.c, and instances of the theorems on it.
use macports.Prelude.{◌≡◌, refl, [], codes, compare, arith}
use macports.Prelude.Int.{ℤ, pos}
use macports.Ctype.{is_digit, is_upper, is_lower, is_alpha, is_alnum}
use macports.Vercomp.Segments.{
  minus_one, segment, after_segment, skip_separators, skip_zeros, compare_segments, compare_digits,
  compare_round,
}
use macports.Vercomp.Loop.{result, remaining, loop, equal, vercmp}
use macports.Vercomp.Registry.{skip_separators_a}
use macports.Vercomp.Registry
use macports.Vercomp.Digits.{value, order, order-digits}
use macports.Vercomp.Termination.{vercmp-total}
use macports.Vercomp.Agreement.{registry-agrees}

numbers_compare : vercmp (codes "1.10") (codes "1.9") ≡ result (pos 1)
unfolding vercmp loop equal remaining compare_round compare_digits compare_segments segment
    after_segment skip_separators skip_zeros is_alnum is_alpha is_digit is_upper is_lower
numbers_compare = refl

leading_zeros : vercmp (codes "1.01") (codes "1-1") ≡ result (pos 0)
unfolding vercmp loop equal remaining compare_round compare_digits compare_segments segment
    after_segment skip_separators skip_zeros is_alnum is_alpha is_digit is_upper is_lower
leading_zeros = refl

letters_below_digits : vercmp (codes "1.a") (codes "1.0") ≡ result minus_one
unfolding vercmp loop equal remaining compare_round compare_digits compare_segments segment
    after_segment skip_separators skip_zeros is_alnum is_alpha is_digit is_upper is_lower
letters_below_digits = refl

longer_is_newer : vercmp (codes "2.0.1") (codes "2.0") ≡ result (pos 1)
unfolding vercmp loop equal remaining compare_round compare_digits compare_segments segment
    after_segment skip_separators skip_zeros is_alnum is_alpha is_digit is_upper is_lower
longer_is_newer = refl

order-digits_example :
    order (compare_digits (skip_zeros (codes "010")) (skip_zeros (codes "9")) [] []) ≡ compare 10 9
unfolding value
order-digits_example =
    order-digits (codes "010") (codes "9") [] []
      ((omega arith, omega arith), ((omega arith, omega arith), ((omega arith, omega arith), tt)))
      ((omega arith, omega arith), tt)

vercmp-total_example : (z : ℤ) × (vercmp (codes "1.2b3") (codes "1.2b") ≡ result z)
vercmp-total_example = vercmp-total (codes "1.2b3") (codes "1.2b")

registry-agrees_example :
    Registry.vercmp (codes "1.2") (codes "1.") ≡ vercmp (codes "1.2") (codes "1.")
unfolding is_alnum is_alpha is_digit is_upper is_lower
registry-agrees_example =
    registry-agrees (codes "1.2") (codes "1.") (omega arith, (omega arith, (omega arith, tt)))
      (omega arith, (omega arith, tt)) refl
