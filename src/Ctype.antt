-- ===== src/Ctype.antt =====
-- The <ctype.h> classes in the "C" locale that the code relies on, on byte values, and the
-- case-insensitive comparisons of base/src/pextlib1.0/strcasecmp.c.
pub mod Order
use macports.Prelude.{
  ℕ, zero, suc, ◌+◌, ◌≡◌, refl, Bool, true, false, ◌&&◌, ◌||◌, [], ◌∷◌, leb, ◌==◌, if◌then◌else◌,
  Bytes, length, compare, Ordering, arith,
}

unfoldable pub is_digit : ℕ → Bool
is_digit c = leb b'0' c && leb c b'9'

unfoldable pub is_upper : ℕ → Bool
is_upper c = leb b'A' c && leb c b'Z'

unfoldable pub is_lower : ℕ → Bool
is_lower c = leb b'a' c && leb c b'z'

unfoldable pub is_alpha : ℕ → Bool
unfolding is_upper is_lower
is_alpha c = is_upper c || is_lower c

unfoldable pub is_alnum : ℕ → Bool
unfolding is_alpha is_digit
is_alnum c = is_alpha c || is_digit c

unfoldable pub tolower : ℕ → ℕ
unfolding is_upper
tolower c = if is_upper c then c + 32 else c

-- What a pointer into a string reads; the end of the string reads as its terminator.
abbrev pub deref : Bytes → ℕ
deref [] = 0
deref (c ∷ s) = c

abbrev pub next : Bytes → Bytes
next [] = []
next (c ∷ s) = s

-- `xstrcasecmp`, which goes on until the end of the left string or a difference. The sign of the
-- result is all that the callers use. Characters count as unsigned, as in strcmp(3).
unfoldable pub strcasecmp : Bytes → Bytes → Ordering
strcasecmp [] r = compare 0 (tolower (deref r))
strcasecmp (c ∷ l) r =
    let rest = strcasecmp l (next r) in
    elim (compare (tolower c) (tolower (deref r))) [
      | Ordering.eq ↦ if tolower c == 0 then Ordering.eq else rest
      | o ↦ o
    ]

-- `xstrncasecmp`. The count wraps below 0, so that a count of 0 never stops the comparison.
unfoldable pub strncasecmp : ℕ → Bytes → Bytes → Ordering
strncasecmp zero l r = strcasecmp l r
strncasecmp (suc zero) l r = compare (tolower (deref l)) (tolower (deref r))
strncasecmp (suc (suc n)) l r =
    let rest = strncasecmp (suc n) (next l) (next r) in
    elim (compare (tolower (deref l)) (tolower (deref r))) [
      | Ordering.eq ↦ if tolower (deref l) == 0 then Ordering.eq else rest
      | o ↦ o
    ]

unfoldable pub lower : Bytes → Bytes
lower [] = []
lower (c ∷ s) = tolower c ∷ lower s
