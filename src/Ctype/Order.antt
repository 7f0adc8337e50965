-- ===== src/Ctype/Order.antt =====
-- The lexicographic order of byte strings, in which a string comes before its extensions, and the
-- case-insensitive comparisons as that order on the lower-case strings.
use macports.Ctype.{tolower, lower, strcasecmp}
use macports.Prelude.{ℕ, ◌≡◌, ◌<◌, refl, [], ◌∷◌, Bytes, All, compare, Ordering, arith, ◌↔◌}

unfoldable pub cmp : Bytes → Bytes → Ordering
cmp [] [] = Ordering.eq
cmp [] (b ∷ r) = Ordering.lt
cmp (a ∷ l) [] = Ordering.gt
cmp (a ∷ l) (b ∷ r) = let rest = cmp l r in elim (compare a b) [ Ordering.eq ↦ rest | o ↦ o ]

pub cmp_refl : (l : Bytes) → cmp l l ≡ Ordering.eq
unfolding cmp
cmp_refl [] = refl
cmp_refl (a ∷ l) = ground (arith, cmp_refl l)

pub cmp-eq : (l r : Bytes) → cmp l r ≡ Ordering.eq → l ≡ r
unfolding cmp
cmp-eq [] [] h = refl
cmp-eq [] (b ∷ r) h = cc
cmp-eq (a ∷ l) [] h = cc
cmp-eq (a ∷ l) (b ∷ r) h = ground (arith, cmp-eq l r)

-- The order is antisymmetric: the other way round the answer is the opposite.
pub cmp-lt : (l r : Bytes) → (cmp l r ≡ Ordering.lt) ↔ (cmp r l ≡ Ordering.gt)
unfolding cmp
cmp-lt [] [] = ground arith
cmp-lt [] (b ∷ r) = ground arith
cmp-lt (a ∷ l) [] = ground arith
cmp-lt (a ∷ l) (b ∷ r) = ground (arith, cmp-lt l r)

pub cmp_trans :
    (k l r : Bytes) → cmp k l ≡ Ordering.lt → cmp l r ≡ Ordering.lt → cmp k r ≡ Ordering.lt
unfolding cmp
cmp_trans [] [] r h e = cc
cmp_trans [] (b ∷ l) [] h e = cc
cmp_trans [] (b ∷ l) (c ∷ r) h e = refl
cmp_trans (a ∷ k) [] r h e = cc
cmp_trans (a ∷ k) (b ∷ l) [] h e = cc
cmp_trans (a ∷ k) (b ∷ l) (c ∷ r) h e = ground (arith, cmp_trans k l r)

-- A character of a C string in ASCII.
abbrev pub IsAscii : ℕ → Type 0
IsAscii c = (0 < c) × (c < 128)

pub tolower-pos : (c : ℕ) → 0 < c → 0 < tolower c
unfolding tolower
tolower-pos c h = ground arith

pub tolower-zero : tolower 0 ≡ 0
unfolding tolower
tolower-zero = refl

-- `strcasecmp` orders two ASCII strings without a null character as their lower cases are ordered.
strcasecmp-cmp :
    (l r : Bytes) → All IsAscii l → All IsAscii r → strcasecmp l r ≡ cmp (lower l) (lower r)
unfolding strcasecmp cmp lower
strcasecmp-cmp [] [] h k = rw tolower-zero
strcasecmp-cmp [] (b ∷ r) h k = ground (arith, tolower-zero, tolower-pos b)
strcasecmp-cmp (a ∷ l) [] h k = ground (arith, tolower-zero, tolower-pos a)
strcasecmp-cmp (a ∷ l) (b ∷ r) h k = ground (arith, tolower-pos a, strcasecmp-cmp l r h.1 k.1)
