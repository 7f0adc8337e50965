-- ===== src/Filemap/Listing/Front.antt =====
-- `Get` of filemap.c on an array with a subnode in front, and membership in a list of paths.
use macports.Prelude.{
  ◌≡◌, refl, sym, ◌∙◌, [], ◌∷◌, ◌++◌, List, Bytes, Option, none, some, arith, ◌⊎◌, inl, inr,
  Ordering, Ordering-cases,
}
use macports.Ctype.{lower}
use macports.Ctype.Order.{cmp, cmp-eq, cmp_refl}
use macports.Filemap.Types.{SHeader, Subnodes, nil, cons, key_subpart}
use macports.Filemap.Path.{FilePath, empty, file, dir}
use macports.Filemap.Sorted.{Above, AreWellFormed, child}
use macports.Filemap.Tree.{get, leaf_value, enter_node}
use macports.Filemap.Get.{IsKeyPath, get-file, get-dir}

-- Membership in a list of paths.
abbrev pub In : Bytes → List Bytes → Type 0
In p [] = ⊥
In p (x ∷ xs) = (p ≡ x) ⊎ In p xs

pub In-append : (p : Bytes) (xs ys : List Bytes) → In p (xs ++ ys) → In p xs ⊎ In p ys
In-append p [] ys h = inr h
In-append p (x ∷ xs) ys (inl e) = inl (inl e)
In-append p (x ∷ xs) ys (inr h) = ground (arith, In-append p xs ys h)

pub In-append_left : (p : Bytes) (xs ys : List Bytes) → In p xs → In p (xs ++ ys)
In-append_left p [] ys h = absurd h
In-append_left p (x ∷ xs) ys (inl e) = inl e
In-append_left p (x ∷ xs) ys (inr h) = inr (In-append_left p xs ys h)

pub In-append_right : (p : Bytes) (xs ys : List Bytes) → In p ys → In p (xs ++ ys)
In-append_right p [] ys h = h
In-append_right p (x ∷ xs) ys h = inr (In-append_right p xs ys h)

-- A hit below later subnodes is not hidden by the first one.
pub child-tail :
    (n m : Bytes) (t : Subnodes) (h : SHeader)
    → Above m t
    → child t n ≡ some h
    → cmp m n ≡ Ordering.lt
unfolding child
child-tail n m nil h a e = cc
child-tail n m (cons x t) h a e = elim (Ordering-cases (cmp (lower (key_subpart x)) n)) [
  | inl o ↦ child-tail n m t h a.1 (rw (o, child) at e)
  | inr (inl o) ↦ rw (← cmp-eq (lower (key_subpart x)) n o) a.0
  | inr (inr o) ↦ child-tail n m t h a.1 (rw (o, child) at e)
]

pub child-cons_tail :
    (n : Bytes) (x : SHeader) (t : Subnodes) (h : SHeader)
    → Above (lower (key_subpart x)) t
    → child t n ≡ some h
    → child (cons x t) n ≡ some h
unfolding child
child-cons_tail n x t h a e = ground (arith, child-tail n (lower (key_subpart x)) t h a e)

pub child-cons_first :
    (x : SHeader) (t : Subnodes) → child (cons x t) (lower (key_subpart x)) ≡ some x
unfolding child
child-cons_first x t = ground (arith, cmp_refl (lower (key_subpart x)))

pub get-empty : (s : Subnodes) → get s empty ≡ none
unfolding get
get-empty s = refl

module _ (x : SHeader) (t : Subnodes) (w : AreWellFormed (cons x t)) where
  pub through_tail :
      (n u : Bytes) (f : Option SHeader → Option Bytes)
      → f none ≡ none
      → f (child t n) ≡ some u
      → f (child (cons x t) n) ≡ some u
  through_tail n u f z g = go (child t n) refl g
    where
      go : (o : Option SHeader) → child t n ≡ o → f o ≡ some u → f (child (cons x t) n) ≡ some u
      go none e g' = cc
      go (some h) e g' = rw (child-cons_tail n x t h w.1 e) g'

  -- `Get` looks past a subnode in front.
  pub get-cons_tail :
      (q : FilePath) (u : Bytes) → IsKeyPath q → get t q ≡ some u → get (cons x t) q ≡ some u
  get-cons_tail empty u k g = cc (get-empty t, g)
  get-cons_tail (file q) u k g =
      get-file (cons x t) q w k
      ∙ through_tail (lower q) u leaf_value refl (sym (get-file t q w.2 k) ∙ g)
  get-cons_tail (dir q r) u k g =
      get-dir (cons x t) q r w k.0
      ∙ through_tail (lower q) u (λ o. enter_node o (λ c. get c r)) refl
          (sym (get-dir t q r w.2 k.0) ∙ g)
