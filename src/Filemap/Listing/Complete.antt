-- ===== src/Filemap/Listing/Complete.antt =====
-- The files that `List` of filemap.c finds.
use macports.Prelude.{
  ◌≡◌, ◌≢◌, refl, sym, ap, ◌∙◌, subst, true, [], ◌∷◌, ◌++◌, Bytes, some, append_assoc, arith, ◌⊎◌,
  inl, inr, Ordering,
}
use macports.Ctype.{lower, strcasecmp}
use macports.Ctype.Order.{cmp}
use macports.Filemap.Types.{SHeader, leaf, node, Subnodes, nil, cons, key_subpart}
use macports.Filemap.Path.{FilePath, empty, file, dir, parse_path, slash}
use macports.Filemap.Keys.{IsKey}
use macports.Filemap.Sorted.{AreWellFormed, same, child}
use macports.Filemap.Tree.{get, leaf_value, enter_node, list, list_subtree, list_subnodes}
use macports.Filemap.Get.{IsKeyPath, same_path, get-nil, get-file, get-dir}
use macports.Filemap.Listing.Spelling.{parse-key, parse-key_slash, parse-slash}
use macports.Filemap.Listing.Front.{In-append_left, In-append_right, In, get-empty}

-- A path of the listing that names the file at `q`.
abbrev ListedAs : Subnodes → Bytes → Bytes → FilePath → Type 0
ListedAs s value sub q =
    (t : Bytes) × In (sub ++ t) (list_subnodes s value sub) × (same_path (parse_path t) q ≡ true)

ListedAs-tail :
    (x : SHeader) (t : Subnodes) (value sub : Bytes) (q : FilePath)
    → ListedAs t value sub q
    → ListedAs (cons x t) value sub q
unfolding list_subtree
ListedAs-tail x t value sub q (r, i, e) =
    (r, In-append_right (sub ++ r) (list_subtree x value sub) (list_subnodes t value sub) i, e)

same-eq : (n m : Bytes) → cmp n m ≡ Ordering.eq → same n m ≡ true
unfolding same
same-eq n m e = ground arith

leaf_paths :
    (key v value sub : Bytes)
    → strcasecmp v value ≡ Ordering.eq
    → list_subtree (leaf key v) value sub ≡ (sub ++ key) ∷ []
unfolding list_subtree
leaf_paths key v value sub m = ground arith

leaf_listed :
    (key v value sub : Bytes)
    → strcasecmp v value ≡ Ordering.eq
    → In (sub ++ key) (list_subtree (leaf key v) value sub)
leaf_listed key v value sub m =
    subst (In (sub ++ key)) (sym (leaf_paths key v value sub m)) (inl refl)

eq-cases : (o : Ordering) → (o ≡ Ordering.eq) ⊎ (o ≢ Ordering.eq)
eq-cases o = grind arith

ListedAs-leaf :
    (key v value sub k : Bytes) (t : Subnodes)
    → IsKey key
    → strcasecmp v value ≡ Ordering.eq
    → cmp (lower key) (lower k) ≡ Ordering.eq
    → ListedAs (cons (leaf key v) t) value sub (file k)
unfolding list_subtree same_path
ListedAs-leaf key v value sub k t j m e = (
  key,
  In-append_left (sub ++ key) (list_subtree (leaf key v) value sub) (list_subnodes t value sub)
      (leaf_listed key v value sub m),
  rw (parse-key key j) (same-eq (lower key) (lower k) e),
)

ListedAs-node :
    (key value sub k : Bytes) (r : FilePath) (subs t : Subnodes)
    → IsKey key
    → cmp (lower key) (lower k) ≡ Ordering.eq
    → ListedAs subs value (sub ++ (key ++ slash ∷ [])) r
    → ListedAs (cons (node key subs) t) value sub (dir k r)
unfolding list_subtree same_path
ListedAs-node key value sub k r subs t j e (b, i, s) = (
  key ++ slash ∷ b,
  In-append_left (sub ++ (key ++ slash ∷ b)) (list_subtree (node key subs) value sub)
      (list_subnodes t value sub)
      (subst (λ p. In p (list_subnodes subs value (sub ++ (key ++ slash ∷ []))))
        (append_assoc sub (key ++ slash ∷ []) b
          ∙ ap (λ c. sub ++ c) (append_assoc key (slash ∷ []) b))
        i),
  rw (parse-key_slash key b j) (ground (arith, same-eq (lower key) (lower k) e, s)),
)

child-cons_eq :
    (x : SHeader) (t : Subnodes) (n : Bytes)
    → cmp (lower (key_subpart x)) n ≡ Ordering.eq
    → child (cons x t) n ≡ some x
unfolding child
child-cons_eq x t n e = ground arith

child-cons_ne :
    (x : SHeader) (t : Subnodes) (n : Bytes)
    → cmp (lower (key_subpart x)) n ≢ Ordering.eq
    → child (cons x t) n ≡ child t n
unfolding child
child-cons_ne x t n e = ground arith

module _ (x : SHeader) (t : Subnodes) (w : AreWellFormed (cons x t)) (k : Bytes) (j : IsKey k) where
  get-first_file :
      cmp (lower (key_subpart x)) (lower k) ≡ Ordering.eq
      → get (cons x t) (file k) ≡ leaf_value (some x)
  get-first_file e = get-file (cons x t) k w j ∙ ap leaf_value (child-cons_eq x t (lower k) e)

  get-first_dir :
      (r : FilePath)
      → cmp (lower (key_subpart x)) (lower k) ≡ Ordering.eq
      → get (cons x t) (dir k r) ≡ enter_node (some x) (λ c. get c r)
  get-first_dir r e =
      get-dir (cons x t) k r w j
      ∙ ap (λ o. enter_node o (λ c. get c r)) (child-cons_eq x t (lower k) e)

  get-tail_file :
      cmp (lower (key_subpart x)) (lower k) ≢ Ordering.eq → get (cons x t) (file k) ≡ get t (file k)
  get-tail_file e =
      get-file (cons x t) k w j
      ∙ ap leaf_value (child-cons_ne x t (lower k) e)
      ∙ sym (get-file t k w.2 j)

  get-tail_dir :
      (r : FilePath)
      → cmp (lower (key_subpart x)) (lower k) ≢ Ordering.eq
      → get (cons x t) (dir k r) ≡ get t (dir k r)
  get-tail_dir r e =
      get-dir (cons x t) k r w j
      ∙ ap (λ o. enter_node o (λ c. get c r)) (child-cons_ne x t (lower k) e)
      ∙ sym (get-dir t k r w.2 j)

module _ (value u : Bytes) (m : strcasecmp u value ≡ Ordering.eq) where
  list_subnodes-ListedAs :
      (s : Subnodes) (sub : Bytes) (q : FilePath)
      → AreWellFormed s
      → IsKeyPath q
      → get s q ≡ some u
      → ListedAs s value sub q
  list_subnodes-ListedAs nil sub q w j g = cc (get-nil q, g)
  list_subnodes-ListedAs (cons x t) sub empty w j g = cc (get-empty (cons x t), g)
  list_subnodes-ListedAs (cons (leaf key v) t) sub (file k) w j g =
      elim (eq-cases (cmp (lower key) (lower k))) [
        | inl o ↦
            let e : v ≡ u = cc (sym (get-first_file (leaf key v) t w k j o) ∙ g) in
            ListedAs-leaf key v value sub k t w.0.0 (ap (λ b. strcasecmp b value) e ∙ m) o
        | inr o ↦ ListedAs-tail (leaf key v) t value sub (file k) (
            list_subnodes-ListedAs t sub (file k) w.2 j
              (sym (get-tail_file (leaf key v) t w k j o) ∙ g))
      ]
  list_subnodes-ListedAs (cons (leaf key v) t) sub (dir k r) w j g =
      elim (eq-cases (cmp (lower key) (lower k))) [
        | inl o ↦ cc (get-first_dir (leaf key v) t w k j.0 r o, g)
        | inr o ↦ ListedAs-tail (leaf key v) t value sub (dir k r) (
            list_subnodes-ListedAs t sub (dir k r) w.2 j
              (sym (get-tail_dir (leaf key v) t w k j.0 r o) ∙ g))
      ]
  list_subnodes-ListedAs (cons (node key subs) t) sub (file k) w j g =
      elim (eq-cases (cmp (lower key) (lower k))) [
        | inl o ↦ cc (get-first_file (node key subs) t w k j o, g)
        | inr o ↦ ListedAs-tail (node key subs) t value sub (file k) (
            list_subnodes-ListedAs t sub (file k) w.2 j
              (sym (get-tail_file (node key subs) t w k j o) ∙ g))
      ]
  list_subnodes-ListedAs (cons (node key subs) t) sub (dir k r) w j g =
      elim (eq-cases (cmp (lower key) (lower k))) [
        | inl o ↦ ListedAs-node key value sub k r subs t w.0.0 o (
            list_subnodes-ListedAs subs (sub ++ (key ++ slash ∷ [])) r w.0.1 j.1
              (sym (get-first_dir (node key subs) t w k j.0 r o) ∙ g))
        | inr o ↦ ListedAs-tail (node key subs) t value sub (dir k r) (
            list_subnodes-ListedAs t sub (dir k r) w.2 j
              (sym (get-tail_dir (node key subs) t w k j.0 r o) ∙ g))
      ]

-- In a well-formed tree, every file that `Get` finds at an ASCII path and whose value equals the given
-- one, but for the case, is in the result of `List`, under a path that names the same file.
pub list_complete :
    (s : Subnodes) (value u : Bytes) (q : FilePath)
    → AreWellFormed s
    → IsKeyPath q
    → get s q ≡ some u
    → strcasecmp u value ≡ Ordering.eq
    → (p : Bytes) × In p (list s value) × (same_path (parse_path p) q ≡ true)
unfolding list
list_complete s value u q w j g m =
    let (t, i, e) = list_subnodes-ListedAs value u m s (slash ∷ []) q w j g in
    (slash ∷ t, unfold list_subtree in i, rw (parse-slash t) e)
