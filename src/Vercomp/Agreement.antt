-- ===== src/Vercomp/Agreement.antt =====
-- The registry's `vercmp` against pextlib's.
use macports.Prelude.{
  ℕ, zero, suc, ◌≡◌, ◌<◌, refl, sym, [], ◌∷◌, Bytes, Bool, true, false, ◌&&◌, ◌==◌, length, arith,
  All, none, some, Bool-cases, inl, inr, ◌⊎◌, subst,
}
use macports.Ctype.{is_digit, is_alpha, is_alnum}
use macports.Vercomp.Segments.{
  Verdict, answer, continue, segment, after_segment, skip_separators, skip_zeros, compare_segments,
  compare_digits, compare_round,
}
use macports.Vercomp.Loop.{result, overrun, loop, equal, vercmp}
use macports.Vercomp.Registry.{skip_separators_a}
use macports.Vercomp.Registry

-- A version that does not end in a separator.
abbrev pub EndsWell : Bytes → Type 0
EndsWell [] = Unit
EndsWell (c ∷ []) = is_alnum c ≡ true
EndsWell (c ∷ d ∷ s) = EndsWell (d ∷ s)

EndsWell-tail : (c : ℕ) (s : Bytes) → EndsWell (c ∷ s) → EndsWell s
EndsWell-tail c [] h = tt
EndsWell-tail c (d ∷ s) h = h

skip-agrees :
    (c : ℕ) (s : Bytes)
    → EndsWell (c ∷ s)
    → skip_separators_a (c ∷ s) ≡ some (skip_separators (c ∷ s))
unfolding skip_separators_a skip_separators
skip-agrees c [] h = ground (arith, h)
skip-agrees c (d ∷ s) h = ground (arith, skip-agrees d s h)

skip-EndsWell : (s : Bytes) → EndsWell s → EndsWell (skip_separators s)
unfolding skip_separators
skip-EndsWell [] h = tt
skip-EndsWell (c ∷ s) h = elim (Bool-cases (is_alnum c)) [
  | inl e ↦ rw e h
  | inr e ↦ rw e (skip-EndsWell s (EndsWell-tail c s h))
]

after_segment-EndsWell : (p : ℕ → Bool) (s : Bytes) → EndsWell s → EndsWell (after_segment p s)
unfolding after_segment
after_segment-EndsWell p [] h = tt
after_segment-EndsWell p (c ∷ s) h = elim (Bool-cases (p c)) [
  | inl e ↦ rw e (after_segment-EndsWell p s (EndsWell-tail c s h))
  | inr e ↦ rw e h
]

-- A comparison of segments that goes on hands on what follows them.
abbrev Continues : Bytes → Verdict → Type 0
Continues r (answer z) = Unit
Continues r (continue a b) = a ≡ r

compare_segments-Continues : (x y a b : Bytes) → Continues a (compare_segments x y a b)
unfolding compare_segments
compare_segments-Continues [] y a b = refl
compare_segments-Continues (c ∷ x) [] a b = refl
compare_segments-Continues (c ∷ x) (d ∷ y) a b = ground (arith, compare_segments-Continues x y a b)

compare_digits-Continues : (x y a b : Bytes) → Continues a (compare_digits x y a b)
unfolding compare_digits
compare_digits-Continues x y a b = ground (arith, compare_segments-Continues x y a b)

abbrev ContinuesAfter : Bytes → Verdict → Type 0
ContinuesAfter a (answer z) = Unit
ContinuesAfter a (continue a' b') =
    (a' ≡ after_segment is_alpha a) ⊎ (a' ≡ after_segment is_digit a)

compare_round-ContinuesAfter : (a b : Bytes) → ContinuesAfter a (compare_round a b)
unfolding compare_round
compare_round-ContinuesAfter a b = ground (
  arith,
  compare_segments-Continues (segment is_alpha a) (segment is_alpha b) (after_segment is_alpha a)
      (after_segment is_alpha b),
  compare_digits-Continues (skip_zeros (segment is_digit a)) (skip_zeros (segment is_digit b))
      (after_segment is_digit a) (after_segment is_digit b),
)

-- A round that goes on leaves a version that does not end in a separator.
abbrev LeavesWell : Verdict → Type 0
LeavesWell (answer z) = Unit
LeavesWell (continue a b) = EndsWell a

ContinuesAfter-LeavesWell :
    (a : Bytes) (v : Verdict) → EndsWell a → ContinuesAfter a v → LeavesWell v
ContinuesAfter-LeavesWell a (answer z) h c = tt
ContinuesAfter-LeavesWell a (continue a' b') h (inl e) =
    subst EndsWell (sym e) (after_segment-EndsWell is_alpha a h)
ContinuesAfter-LeavesWell a (continue a' b') h (inr e) =
    subst EndsWell (sym e) (after_segment-EndsWell is_digit a h)

loop-agrees : (fuel : ℕ) (a b : Bytes) → EndsWell a → Registry.loop fuel a b ≡ loop fuel a b
unfolding loop Registry.loop
loop-agrees zero a b h = refl
loop-agrees (suc fuel) [] b h = refl
loop-agrees (suc fuel) (c ∷ a) [] h = refl
loop-agrees (suc fuel) (c ∷ a) (d ∷ b) h =
    rw (skip-agrees c a h, Registry.loop)
      (go (compare_round (skip_separators (c ∷ a)) (skip_separators (d ∷ b)))
        (ContinuesAfter-LeavesWell (skip_separators (c ∷ a)) _ (skip-EndsWell (c ∷ a) h)
          (compare_round-ContinuesAfter (skip_separators (c ∷ a)) (skip_separators (d ∷ b))))
        (loop-agrees fuel))
  where
    go :
        (v : Verdict)
        → LeavesWell v
        → ((a' b' : Bytes) → EndsWell a' → Registry.loop fuel a' b' ≡ loop fuel a' b')
        → (elim v [ answer z ↦ result z | continue a' b' ↦ Registry.loop fuel a' b' ])
          ≡ (elim v [ answer z ↦ result z | continue a' b' ↦ loop fuel a' b' ])
    go (answer z) l ih = refl
    go (continue a' b') l ih = ih a' b' l

equal-length : (a b : Bytes) → All (λ c. 0 < c) a → equal a b ≡ true → length a ≡ length b
unfolding equal
equal-length [] [] h e = refl
equal-length [] (d ∷ b) h e = cc
equal-length (c ∷ a) [] h e = cc
equal-length (c ∷ a) (d ∷ b) h e = ground (arith, equal-length a b h.1)

-- On two versions without a null character, the first of which does not end in a separator, the
-- registry's comparison gives what pextlib's gives.
pub registry-agrees :
    (a b : Bytes)
    → All (λ c. 0 < c) a
    → All (λ c. 0 < c) b
    → EndsWell a
    → Registry.vercmp a b ≡ vercmp a b
unfolding vercmp Registry.vercmp
registry-agrees a b n _ w = ground (arith, loop-agrees (suc (length a)) a b w, equal-length a b n)

skip-nothing : (a : Bytes) → All (λ c. is_alnum c ≡ false) a → skip_separators_a a ≡ none
unfolding skip_separators_a
skip-nothing [] h = refl
skip-nothing (c ∷ a) h = ground (arith, h.0, skip-nothing a h.1)

-- The registry's comparison runs past the end of a first version that consists of separators, with
-- any other second version that is not empty.
registry-overruns :
    (a b : Bytes) (d : ℕ)
    → All (λ c. is_alnum c ≡ false) a
    → 0 < length a
    → (length a == length (d ∷ b) && equal a (d ∷ b)) ≡ false
    → Registry.vercmp a (d ∷ b) ≡ overrun
unfolding Registry.vercmp Registry.loop
registry-overruns [] b d s n e = absurd (omega arith)
registry-overruns (c ∷ a) b d s n e = rw (e, skip-nothing (c ∷ a) s, Registry.loop)
