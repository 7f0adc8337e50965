-- ===== src/Vercomp/Loop.antt =====
-- `vercmp` of base/src/pextlib1.0/vercomp.c. Its versions are C strings: a version is the bytes before
-- the terminator, and has no null character. On bytes with one the functions here say nothing of the
-- code.
use macports.Prelude.{
  ℕ, zero, suc, [], ◌∷◌, Bytes, Bool, true, false, ◌&&◌, ◌||◌, length, ◌==◌, if◌then◌else◌,
}
use macports.Prelude.Int.{ℤ, pos}
use macports.Vercomp.Segments.{answer, continue, minus_one, skip_separators, compare_round}

-- What a call ends with. `overrun` is a read past the end of a string, and `out_of_fuel` belongs to
-- the model only.
pub data Outcome : Type 0 where
  result : ℤ → Outcome
  overrun : Outcome
  out_of_fuel : Outcome

-- What follows the loop.
unfoldable pub remaining : Bytes → Bytes → ℤ
remaining [] [] = pos 0
remaining (c ∷ a) b = pos 1
remaining [] (d ∷ b) = minus_one

unfoldable pub loop : ℕ → Bytes → Bytes → Outcome
loop zero a b = out_of_fuel
loop (suc fuel) [] b = result (remaining [] b)
loop (suc fuel) (c ∷ a) [] = result (remaining (c ∷ a) [])
loop (suc fuel) (c ∷ a) (d ∷ b) =
    elim (compare_round (skip_separators (c ∷ a)) (skip_separators (d ∷ b))) [
      | answer z ↦ result z
      | continue a' b' ↦ loop fuel a' b'
    ]

-- strcmp(3) or strncmp(3) finds the strings equal.
unfoldable pub equal : Bytes → Bytes → Bool
equal [] [] = true
equal (c ∷ a) (d ∷ b) = c == d && (c == 0 || equal a b)
equal _ _ = false

unfoldable pub vercmp : Bytes → Bytes → Outcome
vercmp a b = if equal a b then result (pos 0) else loop (suc (length a)) a b
