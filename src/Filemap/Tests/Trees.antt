-- ===== src/Filemap/Tests/Trees.antt =====
-- `Set`, `Get`, `Delete` and `List` of filemap.c on a small tree.
use macports.Prelude.{
  ◌≡◌, refl, [], ◌∷◌, Bytes, true, ◌&&◌, none, some, ◌⊎◌, if◌then◌else◌, codes, Ordering, inl,
}
use macports.Ctype.{tolower, strcasecmp, strncasecmp}
use macports.Filemap.Types.{leaf, node, Subnodes, nil, cons, Code, no_error, enotdir}
use macports.Filemap.Path.{FilePath, file, dir, parse_path}
use macports.Filemap.Tree.{
  set, get, delete, list, list_subtree, locate, compare_part, append, set_file, set_dir, prune,
  delete_file, delete_dir, char_sign,
}
use macports.Filemap.Sorted.{AreWellFormed}
use macports.Filemap.Get.{same_path}
use macports.Filemap.Set.{is_ok}
use macports.Filemap.Delete.{covers, extend, get-delete, delete_below_file}
use macports.Filemap.Listing.Front.{In}
use macports.Filemap.Listing.Sound.{list_sound}
use macports.Filemap.Listing.Complete.{list_complete}
use macports.Filemap.Samples.{
  zlib, sample, opt_man, opt_bin, sample-AreWellFormed, opt_man-IsKeyPath, opt_bin-IsKeyPath,
  get-opt_bin,
}

set_new :
    set sample opt_man zlib
    ≡ some (
      no_error,
      cons
          (node (codes "opt") (
            cons
              (leaf (codes "bin") zlib)
              (cons (leaf (codes "lib") (codes "tk")) (cons (leaf (codes "Man") zlib) nil))))
          (cons (leaf (codes "usr") zlib) nil),
    )
unfolding set set_file set_dir locate compare_part strncasecmp strcasecmp tolower char_sign append
set_new = refl

get_any_case : get sample opt_bin ≡ some zlib
unfolding get locate compare_part strncasecmp strcasecmp tolower char_sign
get_any_case = refl

parse_slashes : parse_path (codes "//OPT//Bin") ≡ opt_bin
unfolding parse_path
parse_slashes = refl

set_below_file : set sample (dir (codes "usr") (file (codes "x"))) zlib ≡ some (enotdir, sample)
unfolding set set_file set_dir locate compare_part strncasecmp strcasecmp tolower char_sign append
set_below_file = refl

delete_prunes :
    delete
      (cons (node (codes "a") (cons (leaf (codes "b") zlib) nil)) nil)
      (dir (codes "a") (file (codes "b")))
    ≡ some (no_error, nil)
unfolding delete delete_file delete_dir prune locate compare_part strncasecmp strcasecmp tolower
    char_sign append
delete_prunes = refl

list_zlib : list sample (codes "ZLIB") ≡ codes "/opt/bin" ∷ codes "/usr" ∷ []
unfolding list list_subtree strcasecmp tolower
list_zlib = refl

-- Non-ASCII keys break the order: the search for "a" stops at "ab", although "a" stands behind it.
signed_char_order :
    get
      (cons
        (leaf (codes "ab") zlib)
        (cons (leaf (b'a' ∷ 0xe9 ∷ []) zlib) (cons (leaf (codes "a") zlib) nil)))
      (file (codes "a"))
    ≡ none
unfolding get locate compare_part strncasecmp strcasecmp tolower char_sign
signed_char_order = refl

get-delete_example :
    ((code : Code) × (t : Subnodes) × (delete sample opt_bin ≡ some (code, t))
      × AreWellFormed t
      × (get t opt_man
          ≡ (if is_ok code && covers opt_bin opt_man then none else get sample opt_man)))
    ⊎ ((prefix : FilePath) × (rest : FilePath) × (v : Bytes) × (extend prefix rest ≡ opt_bin)
        × (get sample prefix ≡ some v)
        × (delete sample opt_bin ≡ none))
get-delete_example =
    get-delete sample opt_bin opt_man sample-AreWellFormed opt_bin-IsKeyPath opt_man-IsKeyPath

delete_below_file_example : delete sample (extend opt_bin opt_man) ≡ none
delete_below_file_example = delete_below_file sample opt_bin opt_man zlib get-opt_bin

list-opt_bin : In (codes "/opt/bin") (list sample (codes "ZLIB"))
unfolding list list_subtree strcasecmp tolower
list-opt_bin = inl refl

list_sound_example :
    (u : Bytes) × (get sample (parse_path (codes "/opt/bin")) ≡ some u)
    × (strcasecmp u (codes "ZLIB") ≡ Ordering.eq)
list_sound_example =
    list_sound sample (codes "ZLIB") (codes "/opt/bin") sample-AreWellFormed list-opt_bin

zlib-zlib : strcasecmp zlib (codes "ZLIB") ≡ Ordering.eq
unfolding strcasecmp tolower
zlib-zlib = refl

list_complete_example :
    (p : Bytes) × In p (list sample (codes "ZLIB")) × (same_path (parse_path p) opt_bin ≡ true)
list_complete_example =
    list_complete sample (codes "ZLIB") zlib opt_bin sample-AreWellFormed opt_bin-IsKeyPath
      get-opt_bin zlib-zlib
