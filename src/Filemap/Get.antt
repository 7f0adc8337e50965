-- ===== src/Filemap/Get.antt =====
-- `Get` of filemap.c on an array with a subnode inserted, replaced or removed.
use macports.Prelude.{◌≡◌, refl, Bool, true, false, ◌&&◌, Bytes, none, some, arith, if◌then◌else◌}
use macports.Ctype.{lower}
use macports.Filemap.Types.{SHeader, Subnodes, nil, key_subpart}
use macports.Filemap.Path.{FilePath, empty, file, dir}
use macports.Filemap.Keys.{IsKey}
use macports.Filemap.Sorted.{IsWellFormed, AreWellFormed, same, child}
use macports.Filemap.Tree.{locate, put, remove, get, leaf_value, enter_node}
use macports.Filemap.Locate.{
  locate-child, locate-put, locate-remove, put-AreWellFormed, remove-AreWellFormed,
}

-- Every element of the path is a key.
abbrev pub IsKeyPath : FilePath → Type 0
IsKeyPath empty = Unit
IsKeyPath (file part) = IsKey part
IsKeyPath (dir part path) = IsKey part × IsKeyPath path

-- Two paths name the same file: their elements agree but for the case.
unfoldable pub same_path : FilePath → FilePath → Bool
same_path (file p) (file q) = same (lower p) (lower q)
same_path (dir p r) (dir q s) = same (lower p) (lower q) && same_path r s
same_path empty empty = true
same_path _ _ = false

pub get-nil : (q : FilePath) → get nil q ≡ none
unfolding get locate
get-nil empty = refl
get-nil (file q) = refl
get-nil (dir q r) = refl

pub get-file :
    (s : Subnodes) (q : Bytes)
    → AreWellFormed s
    → IsKey q
    → get s (file q) ≡ leaf_value (child s (lower q))
unfolding get
get-file s q w k = rw (locate-child q k s w)

pub get-dir :
    (s : Subnodes) (q : Bytes) (r : FilePath)
    → AreWellFormed s
    → IsKey q
    → get s (dir q r) ≡ enter_node (child s (lower q)) (λ c. get c r)
unfolding get
get-dir s q r w k = rw (locate-child q k s w)

module _ (part : Bytes) (k : IsKey part) (s : Subnodes) (w : AreWellFormed s) (q : Bytes)
    (j : IsKey q) where
  module _ (x : SHeader) (i : IsWellFormed x) (e : lower (key_subpart x) ≡ lower part) where
    pub get-put_file :
        get (put (locate s part) x) (file q)
        ≡ (if same (lower part) (lower q) then leaf_value (some x) else get s (file q))
    get-put_file =
        rw
          (
            get-file (put (locate s part) x) q (put-AreWellFormed part k x s i e w) j,
            get-file s q w j,
            locate-put part k x s (lower q) w e,
          )
          (ground arith)

    pub get-put_dir :
        (r : FilePath)
        → get (put (locate s part) x) (dir q r) ≡ (
            if same (lower part) (lower q)
            then enter_node (some x) (λ c. get c r)
            else get s (dir q r))
    get-put_dir r =
        rw
          (
            get-dir (put (locate s part) x) q r (put-AreWellFormed part k x s i e w) j,
            get-dir s q r w j,
            locate-put part k x s (lower q) w e,
          )
          (ground arith)

  pub get-remove_file :
      get (remove (locate s part)) (file q)
      ≡ (if same (lower part) (lower q) then none else get s (file q))
  get-remove_file =
      rw
        (
          get-file (remove (locate s part)) q (remove-AreWellFormed part k s w) j,
          get-file s q w j,
          locate-remove part k s (lower q) w,
        )
        (ground arith)

  pub get-remove_dir :
      (r : FilePath)
      → get (remove (locate s part)) (dir q r)
        ≡ (if same (lower part) (lower q) then none else get s (dir q r))
  get-remove_dir r =
      rw
        (
          get-dir (remove (locate s part)) q r (remove-AreWellFormed part k s w) j,
          get-dir s q r w j,
          locate-remove part k s (lower q) w,
        )
        (ground arith)
