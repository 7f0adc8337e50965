-- ===== src/Filemap/Delete.antt =====
-- `Delete` of filemap.c against `Get` and the order of the subnodes.
use macports.Prelude.{
  ◌≡◌, refl, sym, ◌∙◌, Bool, false, ◌&&◌, Bytes, Option, none, some, if◌then◌else◌, if_same,
  if_and_false, inl, inr, Bool-cases, ap, ◌⊎◌,
}
use macports.Ctype.{lower}
use macports.Filemap.Types.{SHeader, leaf, node, Subnodes, nil, cons, Code, no_error}
use macports.Filemap.Path.{FilePath, empty, file, dir}
use macports.Filemap.Keys.{IsKey}
use macports.Filemap.Sorted.{AreWellFormed, same}
use macports.Filemap.Tree.{
  Located, locate, remove, get, leaf_value, enter_node, prune, delete, delete_file, delete_dir,
}
use macports.Filemap.Locate.{put-AreWellFormed, remove-AreWellFormed}
use macports.Filemap.Get.{
  IsKeyPath, get-nil, get-put_file, get-put_dir, get-remove_file, get-remove_dir,
}
use macports.Filemap.Set.{is_ok, hit-IsWellFormed, get-hit_file, get-hit_dir}

-- The path of a removed entry or of something below it.
unfoldable pub covers : FilePath → FilePath → Bool
covers (file p) (file q) = same (lower p) (lower q)
covers (file p) (dir q r) = same (lower p) (lower q)
covers (dir p r) (dir q s) = same (lower p) (lower q) && covers r s
covers empty _ = false
covers _ _ = false

abbrev pub after_delete : Code → Subnodes → FilePath → FilePath → Option Bytes
after_delete code s p q = if is_ok code && covers p q then none else get s q

abbrev DeleteEffect : Subnodes → FilePath → Code → Subnodes → Type 0
DeleteEffect s p code t =
    AreWellFormed t × ((q : FilePath) → IsKeyPath q → get t q ≡ after_delete code s p q)

-- What a path followed by a slash and another path is.
unfoldable pub extend : FilePath → FilePath → FilePath
extend empty r = r
extend (file p) r = dir p r
extend (dir p q) r = dir p (extend q r)

-- The call has the property; or a file stands on the path where a directory should.
abbrev pub Deletes : Subnodes → FilePath → Option (Code × Subnodes) → Type 0
Deletes s p none =
    (q : FilePath) × (r : FilePath) × (v : Bytes) × (extend q r ≡ p) × (get s q ≡ some v)
Deletes s p (some (code, t)) = DeleteEffect s p code t

module _ (part : Bytes) (k : IsKey part) (s : Subnodes) (w : AreWellFormed s) where
  file-effect : DeleteEffect s (file part) no_error (remove (locate s part))
  unfolding get covers
  file-effect = (remove-AreWellFormed part k s w, effect)
    where
      effect :
          (q : FilePath)
          → IsKeyPath q
          → get (remove (locate s part)) q ≡ after_delete no_error s (file part) q
      effect empty j = refl
      effect (file q) j = get-remove_file part k s w q j
      effect (dir q r) j = get-remove_dir part k s w q j.0 r

  delete_file-effect : Deletes s (file part) (delete_file s (locate s part))
  unfolding delete_file
  delete_file-effect = go (locate s part).hit refl
    where
      go :
          (o : Option SHeader)
          → (locate s part).hit ≡ o
          → Deletes s (file part) (delete_file s (locate s part))
      go none e = rw (e, delete_file) (w, λ q j. refl)
      go (some h) e = rw (e, delete_file) file-effect

  module _ (path : FilePath) (children : Subnodes)
      (reads : (r : FilePath) → enter_node (locate s part).hit (λ c. get c r) ≡ get children r)
      (no_leaf : leaf_value (locate s part).hit ≡ none) (key : Bytes) (i : IsKey key)
      (n : lower key ≡ lower part) where
    prune-AreWellFormed :
        (code : Code) (children' : Subnodes)
        → AreWellFormed children'
        → AreWellFormed (prune (locate s part) key (code, children')).1
    unfolding prune
    prune-AreWellFormed code nil c = remove-AreWellFormed part k s w
    prune-AreWellFormed code (cons h t) c =
        put-AreWellFormed part k (node key (cons h t)) s (i, c) n w

    get-prune_file :
        (code : Code) (children' : Subnodes) (q : Bytes)
        → AreWellFormed children'
        → IsKey q
        → get (prune (locate s part) key (code, children')).1 (file q) ≡ get s (file q)
    unfolding prune
    get-prune_file code nil q c j =
        get-remove_file part k s w q j
        ∙ if_same (same (lower part) (lower q)) none (get s (file q))
            (λ h. sym (get-hit_file part k s w q j h ∙ no_leaf))
    get-prune_file code (cons h t) q c j =
        get-put_file part k s w q j (node key (cons h t)) (i, c) n
        ∙ if_same (same (lower part) (lower q)) none (get s (file q))
            (λ h. sym (get-hit_file part k s w q j h ∙ no_leaf))

    get-prune_dir :
        (code : Code) (children' : Subnodes) (q : Bytes) (r : FilePath)
        → AreWellFormed children'
        → IsKey q
        → get (prune (locate s part) key (code, children')).1 (dir q r)
          ≡ (if same (lower part) (lower q) then get children' r else get s (dir q r))
    unfolding prune
    get-prune_dir code nil q r c j = rw (get-nil r) (get-remove_dir part k s w q j r)
    get-prune_dir code (cons h t) q r c j =
        get-put_dir part k s w q j (node key (cons h t)) (i, c) n r

    prune-effect :
        (code : Code) (children' : Subnodes)
        → DeleteEffect children path code children'
        → DeleteEffect s (dir part path) code (prune (locate s part) key (code, children')).1
    unfolding get covers
    prune-effect code children' done = (prune-AreWellFormed code children' done.0, effect)
      where
        t : Subnodes
        t = (prune (locate s part) key (code, children')).1

        effect : (q : FilePath) → IsKeyPath q → get t q ≡ after_delete code s (dir part path) q
        effect empty j = sym (if_and_false (is_ok code) _ none)
        effect (file q) j =
            get-prune_file code children' q done.0 j ∙ sym (if_and_false (is_ok code) _ _)
        effect (dir q r) j =
            get-prune_dir code children' q r done.0 j.0
            ∙ elim (Bool-cases (same (lower part) (lower q))) [
              | inl h ↦ rw h (done.1 r j.1 ∙ rw (get-hit_dir part k s w q r j.0 h ∙ reads r))
              | inr h ↦ rw h (sym (if_and_false (is_ok code) _ _))
            ]

    rec-effect :
        (r : Option (Code × Subnodes))
        → Deletes children path r
        → Deletes s
            (dir part path)
            (elim r [ none ↦ none | some c ↦ some (prune (locate s part) key c) ])
    unfolding extend get
    rec-effect none (q, r, v, e, h) = (dir part q, r, v, ap (dir part) e, reads q ∙ h)
    rec-effect (some (code, nil)) h = unfold prune in prune-effect code nil h
    rec-effect (some (code, cons x t)) h = unfold prune in prune-effect code (cons x t) h

  delete_dir-effect :
      (path : FilePath)
      → ((children : Subnodes)
          → AreWellFormed children
          → Deletes children path (delete children path))
      → Deletes s (dir part path) (delete_dir s (locate s part) (λ children. delete children path))
  unfolding delete_dir extend get
  delete_dir-effect path rec = go (locate s part).hit refl
    where
      go :
          (o : Option SHeader)
          → (locate s part).hit ≡ o
          → Deletes s
              (dir part path)
              (delete_dir s (locate s part) (λ children. delete children path))
      go none e = rw (e, delete_dir) (w, λ q j. refl)
      go (some (leaf key v)) e = rw (e, delete_dir) (file part, path, v, refl, rw e)
      go (some (node key children)) e =
          let (wk, n) = hit-IsWellFormed part s (node key children) k w e in
          rw (e, delete_dir)
            (rec-effect path children (λ r. rw e) (rw e) key wk.0 n (delete children path)
              (rec children wk.1))

delete-Deletes :
    (p : FilePath) (s : Subnodes) → AreWellFormed s → IsKeyPath p → Deletes s p (delete s p)
unfolding delete
delete-Deletes empty s w k = (w, λ q j. refl)
delete-Deletes (file part) s w k = delete_file-effect part k s w
delete-Deletes (dir part path) s w k =
    delete_dir-effect part k.0 s w path (λ children wc. delete-Deletes path children wc k.1)

-- `Delete` removes what it is told to and nothing else. On a well-formed tree, with a path whose
-- elements are keys in ASCII, either it returns: the tree stays well formed, and a later `Get`
-- of any such path finds nothing if `Delete` succeeded and the path is the deleted one or lies below
-- it, and otherwise what it found before, also after an error. Or it uses a leaf as a node: then a
-- file stands in the tree at a proper prefix of the path.
pub get-delete :
    (s : Subnodes) (p q : FilePath)
    → AreWellFormed s
    → IsKeyPath p
    → IsKeyPath q
    → ((code : Code) × (t : Subnodes) × (delete s p ≡ some (code, t))
        × AreWellFormed t
        × (get t q ≡ (if is_ok code && covers p q then none else get s q)))
      ⊎ ((prefix : FilePath) × (rest : FilePath) × (v : Bytes) × (extend prefix rest ≡ p)
          × (get s prefix ≡ some v)
          × (delete s p ≡ none))
get-delete s p q w k j = go (delete s p) refl (delete-Deletes p s w k)
  where
    go :
        (o : Option (Code × Subnodes))
        → delete s p ≡ o
        → Deletes s p o
        → ((code : Code) × (t : Subnodes) × (delete s p ≡ some (code, t))
            × AreWellFormed t
            × (get t q ≡ (if is_ok code && covers p q then none else get s q)))
          ⊎ ((prefix : FilePath) × (rest : FilePath) × (v : Bytes) × (extend prefix rest ≡ p)
              × (get s prefix ≡ some v)
              × (delete s p ≡ none))
    go none e (prefix, rest, v, x, g) = inr (prefix, rest, v, x, g, e)
    go (some (code, t)) e (wt, effect) = inl (code, t, e, wt, effect q j)

below_leaf :
    (s : Subnodes) (l : Located) (rec : Subnodes → Option (Code × Subnodes)) (v : Bytes)
    (o : Option SHeader)
    → l.hit ≡ o
    → leaf_value o ≡ some v
    → delete_dir s l rec ≡ none
unfolding delete_dir
below_leaf s l rec v none e g = cc
below_leaf s l rec v (some (leaf key value)) e g = rw (e, delete_dir)
below_leaf s l rec v (some (node key children)) e g = cc

below_node :
    (s : Subnodes) (l : Located) (p : FilePath) (rec : Subnodes → Option (Code × Subnodes))
    (v : Bytes) (o : Option SHeader)
    → ((c : Subnodes) → get c p ≡ some v → rec c ≡ none)
    → l.hit ≡ o
    → enter_node o (λ c. get c p) ≡ some v
    → delete_dir s l rec ≡ none
unfolding delete_dir
below_node s l p rec v none ih e g = cc
below_node s l p rec v (some (leaf key value)) ih e g = cc
below_node s l p rec v (some (node key children)) ih e g = rw (e, delete_dir) (rw (ih children g))

-- Wherever the tree has a file, `Delete` of any path that goes on below that file uses its leaf as a
-- node, which is undefined behaviour of the C code.
pub delete_below_file :
    (s : Subnodes) (p rest : FilePath) (v : Bytes)
    → get s p ≡ some v
    → delete s (extend p rest) ≡ none
unfolding get delete extend
delete_below_file s empty rest v g = cc
delete_below_file s (file part) rest v g =
    below_leaf s (locate s part) (λ c. delete c rest) v _ refl g
delete_below_file s (dir part p) rest v g =
    below_node s (locate s part) p (λ c. delete c (extend p rest)) v _
      (λ c. delete_below_file c p rest v) refl g
