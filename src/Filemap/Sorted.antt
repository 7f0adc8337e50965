-- ===== src/Filemap/Sorted.antt =====
-- The invariant of the tree of filemap.c: in each array of subnodes the keys are strictly increasing
-- in the case-insensitive order, and each key and value is a string that fits into its buffer.
use macports.Prelude.{
  ℕ, ◌≡◌, ◌<◌, ◌≤◌, refl, Bool, true, false, Bytes, All, length, Option, none, some, Ordering,
  arith,
}
use macports.Ctype.{lower}
use macports.Ctype.Order.{cmp, cmp-lt, cmp_trans}
use macports.Filemap.Types.{SHeader, leaf, node, Subnodes, nil, cons, key_subpart, name_max}
use macports.Filemap.Keys.{IsKey}

-- A value: no null character, and short enough for `fValue`.
abbrev pub IsByte : ℕ → Type 0
IsByte c = (0 < c) × (c < 256)

pub record IsValue (v : Bytes) : Type 0 where
  pub bytes : All IsByte v
  pub fits : length v ≤ name_max

-- Every key of the array comes after the lower-case key `n`.
abbrev pub Above : Bytes → Subnodes → Type 0
Above n nil = Unit
Above n (cons h t) = (cmp n (lower (key_subpart h)) ≡ Ordering.lt) × Above n t

abbrev mutual
  pub IsWellFormed : SHeader → Type 0
  IsWellFormed (leaf k v) = IsKey k × IsValue v
  IsWellFormed (node k s) = IsKey k × AreWellFormed s

  pub AreWellFormed : Subnodes → Type 0
  AreWellFormed nil = Unit
  AreWellFormed (cons h t) = IsWellFormed h × Above (lower (key_subpart h)) t × AreWellFormed t

pub IsWellFormed-IsKey : (h : SHeader) → IsWellFormed h → IsKey (key_subpart h)
IsWellFormed-IsKey (leaf k v) w = w.0
IsWellFormed-IsKey (node k s) w = w.0

-- Whether two lower-case keys are the same.
unfoldable pub same : Bytes → Bytes → Bool
same n m = elim (cmp n m) [ Ordering.eq ↦ true | _ ↦ false ]

-- The first subnode with a given lower-case key, by a search that does not rely on the order.
unfoldable pub child : Subnodes → Bytes → Option SHeader
child nil n = none
child (cons h t) n =
    let rest = child t n in elim (cmp (lower (key_subpart h)) n) [ Ordering.eq ↦ some h | _ ↦ rest ]

pub Above-trans : (n m : Bytes) (s : Subnodes) → cmp n m ≡ Ordering.lt → Above m s → Above n s
Above-trans n m nil e a = tt
Above-trans n m (cons h t) e a =
    (cmp_trans n m (lower (key_subpart h)) e a.0, Above-trans n m t e a.1)

-- Below the first key there is no hit.
pub child-Above : (n : Bytes) (s : Subnodes) → Above n s → child s n ≡ none
unfolding child
child-Above n nil a = refl
child-Above n (cons h t) a =
    ground (arith, (cmp-lt n (lower (key_subpart h))).0, child-Above n t a.1)
