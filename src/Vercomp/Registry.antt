-- ===== src/Vercomp/Registry.antt =====
-- `vercmp` of base/src/cregistry/vercomp.c.
use macports.Prelude.{
  ℕ, zero, suc, [], ◌∷◌, Bytes, ◌&&◌, length, ◌==◌, if◌then◌else◌, Option, none, some,
}
use macports.Prelude.Int.{pos}
use macports.Ctype.{is_alnum}
use macports.Vercomp.Segments.{answer, continue, skip_separators, compare_round}
use macports.Vercomp.Loop.{Outcome, result, overrun, out_of_fuel, remaining, equal}

-- In the registry's copy the loop over the separators of the first version compares its pointer with
-- the end of the second one, so that nothing stops it at the end of its own string.
unfoldable pub skip_separators_a : Bytes → Option Bytes
skip_separators_a [] = none
skip_separators_a (c ∷ s) =
    let rest = skip_separators_a s in if is_alnum c then some (c ∷ s) else rest

unfoldable pub loop : ℕ → Bytes → Bytes → Outcome
loop zero a b = out_of_fuel
loop (suc fuel) [] b = result (remaining [] b)
loop (suc fuel) (c ∷ a) [] = result (remaining (c ∷ a) [])
loop (suc fuel) (c ∷ a) (d ∷ b) = elim (skip_separators_a (c ∷ a)) [
  | none ↦ overrun
  | some at_a ↦ elim (compare_round at_a (skip_separators (d ∷ b))) [
    | answer z ↦ result z
    | continue a' b' ↦ loop fuel a' b'
  ]
]

-- The lengths are those of the byte lists.
unfoldable pub vercmp : Bytes → Bytes → Outcome
vercmp a b = if length a == length b && equal a b then result (pos 0) else loop (suc (length a)) a b
