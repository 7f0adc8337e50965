-- ===== src/Filemap/Set.antt =====
-- `Set` of filemap.c against `Get` and the order of the subnodes.
use macports.Prelude.{
  ◌≡◌, sym, ◌∙◌, Bool, true, false, ◌&&◌, Bytes, Option, none, some, arith, take, All, All-take,
  length-take-le, if◌then◌else◌, ap,
}
use macports.Ctype.{lower}
use macports.Ctype.Order.{cmp-eq}
use macports.Filemap.Types.{SHeader, Subnodes, key_subpart, Code, no_error, name_max}
use macports.Filemap.Path.{FilePath, file, dir}
use macports.Filemap.Keys.{IsKey}
use macports.Filemap.Sorted.{IsWellFormed, AreWellFormed, IsValue, IsByte, same}
use macports.Filemap.Tree.{locate, get, leaf_value, enter_node}
use macports.Filemap.Locate.{locate-child, child-IsWellFormed}
use macports.Filemap.Get.{IsKeyPath, same_path, get-file, get-dir}

-- The call returns, and its code and its tree have a property.
abbrev pub Returns : (Code → Subnodes → Type 0) → Option (Code × Subnodes) → Type 0
Returns P none = ⊥
Returns P (some (code, t)) = P code t

abbrev pub is_ok : Code → Bool
is_ok no_error = true
is_ok _ = false

-- What a later `Get` of `q` finds, if the call stored `value` under `p` exactly when it succeeded.
abbrev pub after_set : Code → Subnodes → FilePath → Bytes → FilePath → Option Bytes
after_set code s p value q =
    if is_ok code && same_path p q then some (take name_max value) else get s q

abbrev SetEffect : Subnodes → FilePath → Bytes → Code → Subnodes → Type 0
SetEffect s p value code t =
    AreWellFormed t × ((q : FilePath) → IsKeyPath q → get t q ≡ after_set code s p value q)

pub stored-IsValue : (value : Bytes) → All IsByte value → IsValue (take name_max value)
stored-IsValue value b = record {
  bytes = All-take IsByte name_max value b;
  fits = length-take-le name_max value;
}

-- A hit of the search is well formed, under the key that was searched.
pub hit-IsWellFormed :
    (part : Bytes) (s : Subnodes) (h : SHeader)
    → IsKey part
    → AreWellFormed s
    → (locate s part).hit ≡ some h
    → IsWellFormed h × (lower (key_subpart h) ≡ lower part)
hit-IsWellFormed part s h k w e =
    child-IsWellFormed s (lower part) h w (sym (locate-child part k s w) ∙ e)

module _ (part : Bytes) (k : IsKey part) (s : Subnodes) (w : AreWellFormed s) where
  same-part : (q : Bytes) → same (lower part) (lower q) ≡ true → lower part ≡ lower q
  unfolding same
  same-part q e = ground (arith, cmp-eq (lower part) (lower q))

  -- The subnode that the search finds is the one that `Get` looks at.
  pub get-hit_file :
      (q : Bytes)
      → IsKey q
      → same (lower part) (lower q) ≡ true
      → get s (file q) ≡ leaf_value (locate s part).hit
  get-hit_file q j e =
      get-file s q w j ∙ rw (← same-part q e) (ap leaf_value (sym (locate-child part k s w)))

  pub get-hit_dir :
      (q : Bytes) (r : FilePath)
      → IsKey q
      → same (lower part) (lower q) ≡ true
      → get s (dir q r) ≡ enter_node (locate s part).hit (λ c. get c r)
  get-hit_dir q r j e =
      get-dir s q r w j
      ∙ rw (← same-part q e) (ap (λ h. enter_node h (λ c. get c r)) (sym (locate-child part k s w)))
