-- ===== src/Filemap/Samples.antt =====
-- A tree, paths and answers of the operating system for the tests of the model of filemap.c.
use macports.Prelude.{ℕ, ◌≡◌, refl, Bytes, none, some, if◌then◌else◌, arith, ◌==◌, codes}
use macports.Ctype.{lower, tolower, strcasecmp, strncasecmp}
use macports.Ctype.Order.{cmp}
use macports.Filemap.Types.{leaf, node, Subnodes, nil, cons}
use macports.Filemap.Path.{FilePath, file, dir}
use macports.Filemap.Tree.{get, locate, compare_part, char_sign}
use macports.Filemap.Sorted.{AreWellFormed}
use macports.Filemap.Get.{IsKeyPath}
use macports.Filemap.Save.{Fate, whole, short, Disk}

abbrev pub zlib : Bytes
zlib = codes "zlib"

-- /opt/bin and /opt/lib, and /usr
abbrev pub sample : Subnodes
sample =
    cons
      (node (codes "opt")
        (cons (leaf (codes "bin") zlib) (cons (leaf (codes "lib") (codes "tk")) nil)))
      (cons (leaf (codes "usr") zlib) nil)

abbrev pub opt_man : FilePath
opt_man = dir (codes "opt") (file (codes "Man"))

abbrev pub opt_bin : FilePath
opt_bin = dir (codes "OPT") (file (codes "Bin"))

pub sample-AreWellFormed : AreWellFormed sample
unfolding lower tolower cmp
sample-AreWellFormed = (
  (
    (record { chars = omega arith; non_empty = omega arith; fits = omega arith }),
    (
      (
        (record { chars = omega arith; non_empty = omega arith; fits = omega arith }),
        (record { bytes = omega arith; fits = omega arith }),
      ),
      (refl, tt),
      (
        (
          (record { chars = omega arith; non_empty = omega arith; fits = omega arith }),
          (record { bytes = omega arith; fits = omega arith }),
        ),
        tt,
        tt,
      ),
    ),
  ),
  (refl, tt),
  (
    (
      (record { chars = omega arith; non_empty = omega arith; fits = omega arith }),
      (record { bytes = omega arith; fits = omega arith }),
    ),
    tt,
    tt,
  ),
)

pub opt_man-IsKeyPath : IsKeyPath opt_man
opt_man-IsKeyPath = (
  (record { chars = omega arith; non_empty = omega arith; fits = omega arith }),
  (record { chars = omega arith; non_empty = omega arith; fits = omega arith }),
)

pub opt_bin-IsKeyPath : IsKeyPath opt_bin
opt_bin-IsKeyPath = (
  (record { chars = omega arith; non_empty = omega arith; fits = omega arith }),
  (record { chars = omega arith; non_empty = omega arith; fits = omega arith }),
)

pub get-opt_bin : get sample opt_bin ≡ some zlib
unfolding get locate compare_part strncasecmp strcasecmp tolower char_sign
get-opt_bin = refl

abbrev pub no_failure : ℕ → Fate
no_failure n = whole

-- The ninth write stops after two bytes.
abbrev pub disk_full : ℕ → Fate
disk_full n = if n == 8 then short 2 28 else whole

abbrev pub no_files : Disk
no_files = record { database = none; temporary = none }
