-- ===== src/Vercomp/Segments.antt =====
-- One round of the loop of `vercmp` in base/src/pextlib1.0/vercomp.c, which the copy in
-- base/src/cregistry/vercomp.c has word for word. A pointer is what stands behind it; at the end of
-- the string it reads a null character.
use macports.Prelude.{ℕ, [], ◌∷◌, Bytes, Bool, not, ◌&&◌, ◌||◌, length, ltb, ◌==◌, if◌then◌else◌}
use macports.Prelude.Int.{ℤ, pos, negsuc, sub_ℕ}
use macports.Ctype.{is_digit, is_alpha, is_alnum, deref}

-- What a round ends with: an answer of the function, or the pointers for the next round.
pub data Verdict : Type 0 where
  answer : ℤ → Verdict
  continue : Bytes → Bytes → Verdict

abbrev pub minus_one : ℤ
minus_one = negsuc 0

-- The characters of a class that stand in front, and what follows them.
unfoldable pub segment : (ℕ → Bool) → Bytes → Bytes
segment p [] = []
segment p (c ∷ s) = let rest = segment p s in if p c then c ∷ rest else []

unfoldable pub after_segment : (ℕ → Bool) → Bytes → Bytes
after_segment p [] = []
after_segment p (c ∷ s) = let rest = after_segment p s in if p c then rest else c ∷ s

unfoldable pub skip_separators : Bytes → Bytes
skip_separators [] = []
skip_separators (c ∷ s) = let rest = skip_separators s in if is_alnum c then c ∷ s else rest

unfoldable pub skip_zeros : Bytes → Bytes
skip_zeros [] = []
skip_zeros (c ∷ s) = let rest = skip_zeros s in if c == b'0' then rest else c ∷ s

-- The lexicographic comparison of two segments, before `rest_a` and `rest_b`.
unfoldable pub compare_segments : Bytes → Bytes → Bytes → Bytes → Verdict
compare_segments [] y rest_a rest_b = continue rest_a rest_b
compare_segments (c ∷ x) [] rest_a rest_b = continue rest_a rest_b
compare_segments (c ∷ x) (d ∷ y) rest_a rest_b =
    let rest = compare_segments x y rest_a rest_b in if c == d then rest else answer (sub_ℕ c d)

-- Digit segments: without their leading zeros the longer one is greater.
unfoldable pub compare_digits : Bytes → Bytes → Bytes → Bytes → Verdict
compare_digits x y rest_a rest_b =
    if ltb (length y) (length x)
    then answer (pos 1)
    else if ltb (length x) (length y)
    then answer minus_one
    else compare_segments x y rest_a rest_b

unfoldable pub compare_round : Bytes → Bytes → Verdict
compare_round a b =
    if not (is_digit (deref b)) && is_digit (deref a)
    then answer (pos 1)
    else if is_digit (deref a) && is_alpha (deref b) || is_alpha (deref a) && is_digit (deref b)
    then answer minus_one
    else if is_alpha (deref a)
    then compare_segments (segment is_alpha a) (segment is_alpha b) (after_segment is_alpha a)
        (after_segment is_alpha b)
    else compare_digits (skip_zeros (segment is_digit a)) (skip_zeros (segment is_digit b))
        (after_segment is_digit a) (after_segment is_digit b)
