-- ===== src/Filemap/Path.antt =====
-- How `Set`, `Get` and `Delete` of base/src/pextlib1.0/filemap.c walk over a path: each call skips
-- slashes, takes the characters up to the next slash or the end, and hands on what follows the slash.
use macports.Prelude.{ℕ, true, false, [], ◌∷◌, ◌++◌, Bytes, ◌==◌, Option, none, some}

-- A path as the nested calls see it: nothing but slashes, a last element that the end of the
-- string follows, or an element that a slash follows and the path of the next call.
pub data FilePath : Type 0 where
  empty : FilePath
  file : Bytes → FilePath
  dir : Bytes → FilePath → FilePath

abbrev pub slash : ℕ
slash = b'/'

-- The cursors. `none` while slashes are skipped (`beginCursor`), `some part` between `beginCursor`
-- and `endCursor`.
unfoldable pub walk : Option Bytes → Bytes → FilePath
walk none [] = empty
walk (some part) [] = file part
walk none (c ∷ s) = elim (c == slash) [ true ↦ walk none s | false ↦ walk (some (c ∷ [])) s ]
walk (some part) (c ∷ s) = elim (c == slash) [
  | true ↦ dir part (walk none s)
  | false ↦ walk (some (part ++ c ∷ [])) s
]

unfoldable pub parse_path : Bytes → FilePath
unfolding walk
parse_path = walk none
