-- ===== src/Prelude/Text.antt =====
-- Strings of C in a buffer.
use Prim.Native.Nat.{◌<◌}
use mathlib.Core.Path.{◌≡◌, refl}
use mathlib.Core.Bool.{Bool, true, false}
use mathlib.Core.Option.{Option, none, some}
use mathlib.Core.List.{[], ◌∷◌, ◌++◌}
use native.Mathlib.Omega.{arith}
use macports.Prelude.Tests.{◌==◌, if◌then◌else◌}
use macports.Prelude.Lists.{Bytes, All}

-- The string at a pointer, as strlen(3) measures it, and what follows its terminator.
unfoldable pub c_string : Bytes → Option (Bytes × Bytes)
c_string [] = none
c_string (c ∷ s) =
    let rest : Option (Bytes × Bytes) = elim (c_string s) [
      | none ↦ none
      | some (k, after) ↦ some (c ∷ k, after)
    ] in
    if c == 0 then some ([], s) else rest

-- A text without a null character.
abbrev pub NoNull : Bytes → Type 0
NoNull s = All (λ c. 0 < c) s

pub c_string-append : (s rest : Bytes) → NoNull s → c_string (s ++ 0 ∷ rest) ≡ some (s, rest)
unfolding c_string
c_string-append [] rest h = refl
c_string-append (c ∷ s) rest h = rw (c_string-append s rest h.1) (ground (arith, h.0))

abbrev pub no_null : Bytes → Bool
no_null [] = true
no_null (c ∷ s) = let rest = no_null s in if c == 0 then false else rest

pub null-NoNull : (s : Bytes) → no_null s ≡ true → NoNull s
null-NoNull [] e = tt
null-NoNull (c ∷ s) e = (ground arith, null-NoNull s (ground (arith, e)))
