-- ===== src/Filemap/Tree.antt =====
-- `Create`, `Set`, `Get`, `List` and `Delete` of base/src/pextlib1.0/filemap.c, on the subnodes of
-- the root. `none` is undefined behaviour of the C code: a write past `fKeySubpart`, or a leaf that
-- is used as a node.
use macports.Prelude.{
  ℕ, [], ◌∷◌, ◌++◌, List, Bytes, length, get_or, take, ltb, ◌==◌, if◌then◌else◌, Option, none, some,
  Ordering,
}
use macports.Ctype.{strncasecmp, strcasecmp}
use macports.Filemap.Types.{
  SHeader, leaf, node, Subnodes, nil, cons, Code, no_error, eisdir, enotdir, key_not_found,
  key_subpart, name_max,
}
use macports.Filemap.Path.{FilePath, empty, file, dir, slash}

-- The sign of a plain `char`, which is signed.
unfoldable pub char_sign : ℕ → Ordering
char_sign c = if c == 0 then Ordering.eq else if ltb c 128 then Ordering.gt else Ordering.lt

-- `theCompResult` of one round of the search.
unfoldable pub compare_part : Bytes → Bytes → Ordering
compare_part key part = elim (strncasecmp (length part) key part) [
  | Ordering.eq ↦ char_sign (get_or key (length part) 0)
  | o ↦ o
]

-- The array of subnodes, cut at `indexSubnodes`: `hit` is the subnode there if it was found.
pub record Located : Type 0 where
  pub before : Subnodes
  pub hit : Option SHeader
  pub after : Subnodes

-- The search among the subnodes, which stops at the first key that is not smaller.
unfoldable pub locate : Subnodes → Bytes → Located
locate nil part = record { before = nil; hit = none; after = nil }
locate (cons h t) part =
    let rest = locate t part in
    elim (compare_part (key_subpart h) part) [
      | Ordering.eq ↦ record { before = nil; hit = some h; after = t }
      | Ordering.gt ↦ record { before = nil; hit = none; after = cons h t }
      | Ordering.lt ↦ record { before = cons h rest.before; hit = rest.hit; after = rest.after }
    ]

unfoldable pub append : Subnodes → Subnodes → Subnodes
append nil t = t
append (cons h s) t = cons h (append s t)

-- The array with `h` at the index, in place of the hit or inserted by `memmove`.
abbrev pub put : Located → SHeader → Subnodes
put l h = append l.before (cons h l.after)

-- The array without the hit.
abbrev pub remove : Located → Subnodes
remove l = append l.before l.after

abbrev pub create : Subnodes
create = nil

-- A new subnode's key is copied into `fKeySubpart` whatever its length.
unfoldable pub set_file : Subnodes → Located → Bytes → Bytes → Option (Code × Subnodes)
set_file subs l part value = elim l.hit [
  | none ↦
      if ltb name_max (length part)
      then none
      else some (no_error, put l (leaf part (take name_max value)))
  | some (leaf key old) ↦ some (no_error, put l (leaf key (take name_max value)))
  | some (node key children) ↦ some (eisdir, subs)
]

-- `rec` is the recursive call on the subnodes of the directory.
unfoldable pub set_dir :
    Subnodes → Located → Bytes → (Subnodes → Option (Code × Subnodes)) → Option (Code × Subnodes)
set_dir subs l part rec = elim l.hit [
  | none ↦ if ltb name_max (length part) then none else elim (rec nil) [
    | none ↦ none
    | some (code, children') ↦ some (code, put l (node part children'))
  ]
  | some (leaf key old) ↦ some (enotdir, subs)
  | some (node key children) ↦ elim (rec children) [
    | none ↦ none
    | some (code, children') ↦ some (code, put l (node key children'))
  ]
]

unfoldable pub set : Subnodes → FilePath → Bytes → Option (Code × Subnodes)
set subs empty value = some (eisdir, subs)
set subs (file part) value = set_file subs (locate subs part) part value
set subs (dir part path) value =
    set_dir subs (locate subs part) part (λ children. set children path value)

-- What `Get` makes of the subnode that the last element of the path names.
abbrev pub leaf_value : Option SHeader → Option Bytes
leaf_value none = none
leaf_value (some (leaf key value)) = some value
leaf_value (some (node key children)) = none

-- What `Get` makes of the subnode that a directory in the path names.
abbrev pub enter_node : Option SHeader → (Subnodes → Option Bytes) → Option Bytes
enter_node none rec = none
enter_node (some (leaf key value)) rec = none
enter_node (some (node key children)) rec = rec children

unfoldable pub get : Subnodes → FilePath → Option Bytes
get subs empty = none
get subs (file part) = leaf_value (locate subs part).hit
get subs (dir part path) = enter_node (locate subs part).hit (λ children. get children path)

-- What follows the recursive call of `Delete`: a directory without subnodes is pruned.
unfoldable pub prune : Located → Bytes → Code × Subnodes → Code × Subnodes
prune l key (code, nil) = (code, remove l)
prune l key (code, cons h t) = (code, put l (node key (cons h t)))

unfoldable pub delete_file : Subnodes → Located → Option (Code × Subnodes)
delete_file subs l = elim l.hit [
  | none ↦ some (key_not_found, subs)
  | some h ↦ some (no_error, remove l)
]

unfoldable pub delete_dir :
    Subnodes → Located → (Subnodes → Option (Code × Subnodes)) → Option (Code × Subnodes)
delete_dir subs l rec = elim l.hit [
  | none ↦ some (key_not_found, subs)
  | some (leaf key value) ↦ none
  | some (node key children) ↦ elim (rec children) [ none ↦ none | some r ↦ some (prune l key r) ]
]

unfoldable pub delete : Subnodes → FilePath → Option (Code × Subnodes)
delete subs empty = some (eisdir, subs)
delete subs (file part) = delete_file subs (locate subs part)
delete subs (dir part path) = delete_dir subs (locate subs part) (λ children. delete children path)

-- `ListSubtree`: the paths, in order, that the calls append to `outList`.
unfoldable mutual
  unfolding strcasecmp

  pub list_subtree : SHeader → Bytes → Bytes → List Bytes
  list_subtree (leaf key v) value subpath = elim (strcasecmp v value) [
    | Ordering.eq ↦ (subpath ++ key) ∷ []
    | _ ↦ []
  ]
  list_subtree (node key subs) value subpath =
      list_subnodes subs value (subpath ++ (key ++ slash ∷ []))

  pub list_subnodes : Subnodes → Bytes → Bytes → List Bytes
  list_subnodes nil value subpath = []
  list_subnodes (cons h t) value subpath =
      list_subtree h value subpath ++ list_subnodes t value subpath

-- `List`, on the root, whose key is the empty string.
unfoldable pub list : Subnodes → Bytes → List Bytes
unfolding list_subtree
list subs value = list_subtree (node [] subs) value []
