-- ===== src/Filemap/Keys.antt =====
-- The comparison of keys in filemap.c, and the lexicographic order of lower-case spellings.
use macports.Prelude.{ℕ, ◌≡◌, ◌≢◌, ◌<◌, ◌≤◌, [], ◌∷◌, Bytes, All, length, arith, ltb, false}
use macports.Ctype.{lower, strncasecmp}
use macports.Ctype.Order.{cmp, IsAscii, tolower-pos, tolower-zero}
use macports.Filemap.Types.{name_max}
use macports.Filemap.Path.{slash}
use macports.Filemap.Tree.{compare_part, char_sign}

-- A character of a path element.
abbrev pub IsKeyChar : ℕ → Type 0
IsKeyChar c = IsAscii c × (c ≢ slash)

-- A path element in ASCII that fits into `fKeySubpart`.
pub record IsKey (k : Bytes) : Type 0 where
  pub chars : All IsKeyChar k
  pub non_empty : 0 < length k
  pub fits : length k ≤ name_max

pub IsKeyChar-IsAscii : (k : Bytes) → All IsKeyChar k → All IsAscii k
IsKeyChar-IsAscii [] h = tt
IsKeyChar-IsAscii (c ∷ k) h = (h.0.0, IsKeyChar-IsAscii k h.1)

compare-chars :
    (key part : Bytes)
    → All IsAscii key
    → All IsAscii part
    → 0 < length part
    → compare_part key part ≡ cmp (lower key) (lower part)
unfolding compare_part strncasecmp char_sign cmp lower
compare-chars key [] h k e = absurd (omega arith)
compare-chars [] (p ∷ []) h k e = ground (arith, tolower-zero, tolower-pos p)
compare-chars [] (p ∷ q ∷ part) h k e = ground (arith, tolower-zero, tolower-pos p)
compare-chars (c ∷ []) (p ∷ []) h k e = ground (arith, tolower-zero, tolower-pos p, tolower-pos c)
compare-chars (c ∷ d ∷ key) (p ∷ []) h k e =
    ground (arith, tolower-zero, tolower-pos p, tolower-pos c)
compare-chars (c ∷ key) (p ∷ q ∷ part) h k e =
    ground (arith, tolower-zero, tolower-pos c, compare-chars key (q ∷ part) h.1 k.1)

-- For two keys in ASCII that are not empty and fit into their buffers, `strncasecmp` and the test of
-- the next character together compare the whole keys in lower case.
pub compare_part-cmp :
    (key part : Bytes)
    → IsKey key
    → IsKey part
    → compare_part key part ≡ cmp (lower key) (lower part)
compare_part-cmp key part h k =
    compare-chars key part (IsKeyChar-IsAscii key h.chars) (IsKeyChar-IsAscii part k.chars)
      k.non_empty

-- The copy of a key into `fKeySubpart` stays within the buffer.
pub key-fits : (k : Bytes) → IsKey k → ltb name_max (length k) ≡ false
key-fits k h = ground (arith, h.fits)
