-- ===== src/Filemap/Locate.antt =====
-- The search of filemap.c among the subnodes, and what an insertion, a replacement or a removal at
-- the index that it finds makes of the array.
use macports.Prelude.{
  ◌≡◌, refl, sym, ◌∙◌, Bytes, none, some, Ordering, arith, if◌then◌else◌, inl, inr, Ordering-cases,
  subst,
}
use macports.Ctype.{lower}
use macports.Ctype.Order.{cmp, cmp-lt, cmp-eq}
use macports.Filemap.Types.{SHeader, Subnodes, nil, cons, key_subpart}
use macports.Filemap.Keys.{IsKey, compare_part-cmp}
use macports.Filemap.Sorted.{
  Above, IsWellFormed, AreWellFormed, IsWellFormed-IsKey, same, child, Above-trans, child-Above,
}
use macports.Filemap.Tree.{locate, append, put, remove, compare_part}

module _ (part : Bytes) (k : IsKey part) where
  -- On a sorted array the search finds what a search without an early stop finds.
  pub locate-child : (s : Subnodes) → AreWellFormed s → (locate s part).hit ≡ child s (lower part)
  unfolding locate child
  locate-child nil w = refl
  locate-child (cons h t) w = ground (
    arith,
    compare_part-cmp (key_subpart h) part (IsWellFormed-IsKey h w.0) k,
    locate-child t w.2,
    (cmp-lt (lower part) (lower (key_subpart h))).1,
    λ (e : cmp (lower part) (lower (key_subpart h)) ≡ Ordering.lt).
        child-Above (lower part) t (Above-trans (lower part) (lower (key_subpart h)) t e w.1),
  )

  pub locate-put :
      (x : SHeader) (s : Subnodes) (m : Bytes)
      → AreWellFormed s
      → lower (key_subpart x) ≡ lower part
      → child (put (locate s part) x) m ≡ (if same (lower part) m then some x else child s m)
  unfolding locate child append same
  locate-put x nil m w e = ground arith
  locate-put x (cons h t) m w e = ground (
    arith,
    compare_part-cmp (key_subpart h) part (IsWellFormed-IsKey h w.0) k,
    locate-put x t m w.2 e,
    cmp-eq (lower (key_subpart h)) (lower part),
    cmp-eq (lower (key_subpart h)) m,
    cmp-lt (lower part) (lower (key_subpart h)),
    child-Above (lower part) t,
    Above-trans (lower part) (lower (key_subpart h)) t,
    cmp-eq (lower part) m,
    w.1,
  )

  pub locate-remove :
      (s : Subnodes) (m : Bytes)
      → AreWellFormed s
      → child (remove (locate s part)) m ≡ (if same (lower part) m then none else child s m)
  unfolding locate child append same
  locate-remove nil m w = ground arith
  locate-remove (cons h t) m w = ground (
    arith,
    compare_part-cmp (key_subpart h) part (IsWellFormed-IsKey h w.0) k,
    locate-remove t m w.2,
    cmp-eq (lower (key_subpart h)) (lower part),
    cmp-eq (lower (key_subpart h)) m,
    cmp-lt (lower part) (lower (key_subpart h)),
    child-Above (lower part) t,
    Above-trans (lower part) (lower (key_subpart h)) t,
    cmp-eq (lower part) m,
    w.1,
  )

  -- What the three outcomes of one comparison make of the search.
  locate-lt :
      (h : SHeader) (t : Subnodes)
      → compare_part (key_subpart h) part ≡ Ordering.lt
      → locate (cons h t) part ≡ record {
        before = cons h (locate t part).before;
        hit = (locate t part).hit;
        after = (locate t part).after;
      }
  unfolding locate
  locate-lt h t e = ground arith

  locate-eq :
      (h : SHeader) (t : Subnodes)
      → compare_part (key_subpart h) part ≡ Ordering.eq
      → locate (cons h t) part ≡ record { before = nil; hit = some h; after = t }
  unfolding locate
  locate-eq h t e = ground arith

  locate-gt :
      (h : SHeader) (t : Subnodes)
      → compare_part (key_subpart h) part ≡ Ordering.gt
      → locate (cons h t) part ≡ record { before = nil; hit = none; after = cons h t }
  unfolding locate
  locate-gt h t e = ground arith

  put-Above :
      (n : Bytes) (x : SHeader) (s : Subnodes)
      → lower (key_subpart x) ≡ lower part
      → cmp n (lower part) ≡ Ordering.lt
      → Above n s
      → Above n (put (locate s part) x)
  unfolding append
  put-Above n x nil e b a = unfold locate in (rw e b, tt)
  put-Above n x (cons h t) e b a = elim (Ordering-cases (compare_part (key_subpart h) part)) [
    | inl o ↦ rw (locate-lt h t o) (a.0, put-Above n x t e b a.1)
    | inr (inl o) ↦ rw (locate-eq h t o) (rw e b, a.1)
    | inr (inr o) ↦ rw (locate-gt h t o) (rw e b, a)
  ]

  remove-Above : (n : Bytes) (s : Subnodes) → Above n s → Above n (remove (locate s part))
  unfolding append
  remove-Above n nil a = unfold locate in tt
  remove-Above n (cons h t) a = elim (Ordering-cases (compare_part (key_subpart h) part)) [
    | inl o ↦ rw (locate-lt h t o) (a.0, remove-Above n t a.1)
    | inr (inl o) ↦ rw (locate-eq h t o) a.1
    | inr (inr o) ↦ rw (locate-gt h t o) a
  ]

  pub put-AreWellFormed :
      (x : SHeader) (s : Subnodes)
      → IsWellFormed x
      → lower (key_subpart x) ≡ lower part
      → AreWellFormed s
      → AreWellFormed (put (locate s part) x)
  unfolding append
  put-AreWellFormed x nil i e w = unfold locate in (i, tt, tt)
  put-AreWellFormed x (cons h t) i e w =
      let c = compare_part-cmp (key_subpart h) part (IsWellFormed-IsKey h w.0) k in
      elim (Ordering-cases (compare_part (key_subpart h) part)) [
        | inl o ↦ rw (locate-lt h t o) (
          w.0,
          put-Above (lower (key_subpart h)) x t e (sym c ∙ o) w.1,
          put-AreWellFormed x t i e w.2,
        )
        | inr (inl o) ↦
            let n : lower (key_subpart h) ≡ lower part = cmp-eq _ _ (sym c ∙ o) in
            rw (locate-eq h t o) (i, rw (e, ← n) w.1, w.2)
        | inr (inr o) ↦
            let l : cmp (lower part) (lower (key_subpart h)) ≡ Ordering.lt =
              (cmp-lt _ _).1 (sym c ∙ o) in
            rw (locate-gt h t o) (
              i,
              subst (λ n. Above n (cons h t)) (sym e)
                  (l, Above-trans (lower part) (lower (key_subpart h)) t l w.1),
              w,
            )
      ]

  pub remove-AreWellFormed :
      (s : Subnodes) → AreWellFormed s → AreWellFormed (remove (locate s part))
  unfolding append
  remove-AreWellFormed nil w = unfold locate in tt
  remove-AreWellFormed (cons h t) w = elim (Ordering-cases (compare_part (key_subpart h) part)) [
    | inl o ↦
        rw (locate-lt h t o)
          (w.0, remove-Above (lower (key_subpart h)) t w.1, remove-AreWellFormed t w.2)
    | inr (inl o) ↦ rw (locate-eq h t o) w.2
    | inr (inr o) ↦ rw (locate-gt h t o) w
  ]

-- A hit is a well-formed subnode under the key that was searched.
pub child-IsWellFormed :
    (s : Subnodes) (n : Bytes) (h : SHeader)
    → AreWellFormed s
    → child s n ≡ some h
    → IsWellFormed h × (lower (key_subpart h) ≡ n)
unfolding child
child-IsWellFormed nil n h w e = cc
child-IsWellFormed (cons h' t) n h w e = elim (Ordering-cases (cmp (lower (key_subpart h')) n)) [
  | inl o ↦ child-IsWellFormed t n h w.2 (rw (o, child) at e)
  | inr (inl o) ↦
      let f : h' ≡ h = cc (rw (o, child) at e) in
      subst (λ x. IsWellFormed x × (lower (key_subpart x) ≡ n)) f (w.0, cmp-eq _ _ o)
  | inr (inr o) ↦ child-IsWellFormed t n h w.2 (rw (o, child) at e)
]
