-- ===== src/Filemap/Listing/Sound.antt =====
-- The paths that `List` of filemap.c returns.
use macports.Prelude.{
  ◌≡◌, sym, ap, ◌∙◌, subst, [], ◌∷◌, ◌++◌, Bytes, some, append_assoc, arith, inl, inr, Ordering,
}
use macports.Ctype.{strcasecmp}
use macports.Filemap.Types.{SHeader, leaf, node, Subnodes, nil, cons}
use macports.Filemap.Path.{parse_path, slash}
use macports.Filemap.Sorted.{AreWellFormed}
use macports.Filemap.Tree.{get, leaf_value, enter_node, list, list_subtree, list_subnodes}
use macports.Filemap.Get.{IsKeyPath, get-file, get-dir}
use macports.Filemap.Listing.Spelling.{parse-key, parse-key_slash, parse-slash}
use macports.Filemap.Listing.Front.{In-append, In, child-cons_first, get-cons_tail}

-- The file at `t` below the subnodes has a value that matches.
abbrev Matches : Subnodes → Bytes → Bytes → Type 0
Matches s value t =
    (u : Bytes) × IsKeyPath (parse_path t)
    × (get s (parse_path t) ≡ some u)
    × (strcasecmp u value ≡ Ordering.eq)

Matches-leaf :
    (k v value : Bytes) (t : Subnodes)
    → AreWellFormed (cons (leaf k v) t)
    → strcasecmp v value ≡ Ordering.eq
    → Matches (cons (leaf k v) t) value k
Matches-leaf k v value t w e =
    let p = parse-key k w.0.0 in
    (
      v,
      subst IsKeyPath (sym p) w.0.0,
      rw p (get-file (cons (leaf k v) t) k w w.0.0 ∙ ap leaf_value (child-cons_first (leaf k v) t)),
      e,
    )

Matches-node :
    (k r value : Bytes) (subs t : Subnodes)
    → AreWellFormed (cons (node k subs) t)
    → Matches subs value r
    → Matches (cons (node k subs) t) value (k ++ slash ∷ r)
Matches-node k r value subs t w (u, j, g, e) =
    let p = parse-key_slash k r w.0.0 in
    (
      u,
      subst IsKeyPath (sym p) (w.0.0, j),
      rw p (
          get-dir (cons (node k subs) t) k (parse_path r) w w.0.0
          ∙ ap (λ o. enter_node o (λ c. get c (parse_path r))) (child-cons_first (node k subs) t)
          ∙ g),
      e,
    )

Matches-tail :
    (x : SHeader) (t : Subnodes) (value r : Bytes)
    → AreWellFormed (cons x t)
    → Matches t value r
    → Matches (cons x t) value r
Matches-tail x t value r w (u, j, g, e) = (u, j, get-cons_tail x t w (parse_path r) u j g, e)

-- What the listing of an array under the path `sub` consists of.
abbrev Below : Subnodes → Bytes → Bytes → Bytes → Type 0
Below s value sub p = (t : Bytes) × (p ≡ sub ++ t) × Matches s value t

leaf_listing :
    (k v value sub p : Bytes)
    → In p (list_subtree (leaf k v) value sub)
    → (strcasecmp v value ≡ Ordering.eq) × (p ≡ sub ++ k)
unfolding list_subtree
leaf_listing k v value sub p i = ground arith

list_subnodes-Below :
    (s : Subnodes) (value sub p : Bytes)
    → AreWellFormed s
    → In p (list_subnodes s value sub)
    → Below s value sub p
unfolding list_subtree
list_subnodes-Below nil value sub p w i = absurd i
list_subnodes-Below (cons (leaf k v) t) value sub p w i =
    elim (In-append p (list_subtree (leaf k v) value sub) (list_subnodes t value sub) i) [
      | inl l ↦ let (e, f) = leaf_listing k v value sub p l in (k, f, Matches-leaf k v value t w e)
      | inr l ↦
          let (r, e, m) = list_subnodes-Below t value sub p w.2 l in
          (r, e, Matches-tail (leaf k v) t value r w m)
    ]
list_subnodes-Below (cons (node k subs) t) value sub p w i =
    elim (In-append p (list_subtree (node k subs) value sub) (list_subnodes t value sub) i) [
      | inl l ↦
          let (r, e, m) = list_subnodes-Below subs value (sub ++ (k ++ slash ∷ [])) p w.0.1 l in
          (
            k ++ slash ∷ r,
            e
                ∙ append_assoc sub (k ++ slash ∷ []) r
                ∙ ap (λ b. sub ++ b) (append_assoc k (slash ∷ []) r),
            Matches-node k r value subs t w m,
          )
      | inr l ↦
          let (r, e, m) = list_subnodes-Below t value sub p w.2 l in
          (r, e, Matches-tail (node k subs) t value r w m)
    ]

-- Every path that `List` returns is one at which `Get` finds a value that equals the given one, but
-- for the case, in a well-formed tree.
pub list_sound :
    (s : Subnodes) (value p : Bytes)
    → AreWellFormed s
    → In p (list s value)
    → (u : Bytes) × (get s (parse_path p) ≡ some u) × (strcasecmp u value ≡ Ordering.eq)
unfolding list
list_sound s value p w i =
    let (t, e, m) = list_subnodes-Below s value (slash ∷ []) p w (unfold list_subtree in i) in
    let (u, j, g, same_value) = m in
    (u, ap (get s) (ap parse_path e ∙ parse-slash t) ∙ g, same_value)
