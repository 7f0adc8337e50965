-- ===== src/Machista/Parse.antt =====
-- `parse_macho` of libmachista.c.
use macports.Prelude.{
  ℕ, zero, suc, ◌+◌, ◌∷◌, List, Bytes, ◌==◌, ◌||◌, if◌then◌else◌, Bool, true, false, none, some,
}
use macports.Machista.Types.{
  MachoInput, MachoArch, zero_arch, Result, done, failed, null_dereference, out_of_fuel, ◌>>=◌,
  macho_emagic, mh_magic, mh_cigam, mh_magic_64, mh_cigam_64, fat_magic, fat_cigam,
}
use macports.Machista.Reading.{macho_read, macho_offset, or_erange, word_at, field, malloc}
use macports.Machista.Commands.{load_commands}

-- `mt->mt_archs`, and the allocations that are left.
abbrev pub Archs : Type 0
Archs = List MachoArch × ℕ

-- A file for one architecture, with a header of `header_size` bytes. `macho_archlist_append` puts
-- the new element in front, and its number of commands stands behind four other fields.
unfoldable pub parse_thin : Bytes → MachoInput → Bool → ℕ → Archs → Result Archs
unfolding macho_read field load_commands
parse_thin memory input swapped header_size (archs, heap) = do
  header ← or_erange (macho_read input input.data_at header_size)
  heap' ← malloc heap
  cputype ← field memory swapped (header + 4)
  ncmds ← field memory swapped (header + 16)
  (mat, heap'') ←
      load_commands memory input swapped ncmds header header_size
        (record zero_arch { mat_arch = cputype }) heap'
  done (mat ∷ archs, heap'')

-- The loop over the architectures of a universal file: `arch` is the address of the next description.
unfoldable pub parse_archs :
    (MachoInput → Archs → Result Archs) → Bytes → MachoInput → ℕ → ℕ → Archs → Result Archs
unfolding macho_read macho_offset field
parse_archs parse memory input zero arch mt = done mt
parse_archs parse memory input (suc n) arch mt = do
  desc ← or_erange (macho_read input arch 20)
  len ← field memory true (desc + 12)
  offset ← field memory true (desc + 8)
  start ← or_erange (macho_offset input input.data_at offset len)
  mt' ← parse (record { data_at = start; data_length = len }) mt
  parse_archs parse memory input n (arch + 20) mt'

-- A universal file. The code does not check that `macho_read` gave it the header.
unfoldable pub parse_universal :
    (MachoInput → Archs → Result Archs) → Bytes → MachoInput → Archs → Result Archs
unfolding macho_read macho_offset field parse_archs
parse_universal parse memory input mt = elim (macho_read input input.data_at 8) [
  | none ↦ null_dereference
  | some fat_header ↦ do
    nfat ← field memory true (fat_header + 4)
    archs ← or_erange (macho_offset input fat_header 8 20)
    parse_archs parse memory input nfat archs mt
]

-- The `switch` over the magic number.
unfoldable pub parse_magic :
    (MachoInput → Archs → Result Archs) → ℕ → Bytes → MachoInput → Archs → Result Archs
parse_magic parse magic memory input mt =
    if magic == mh_cigam
    then parse_thin memory input true 28 mt
    else if magic == mh_magic
    then parse_thin memory input false 28 mt
    else if magic == mh_cigam_64
    then parse_thin memory input true 32 mt
    else if magic == mh_magic_64
    then parse_thin memory input false 32 mt
    else if magic == fat_cigam || magic == fat_magic
    then parse_universal parse memory input mt
    else failed macho_emagic

-- The fuel bounds the depth of universal files within universal files.
unfoldable pub parse_macho : ℕ → Bytes → MachoInput → Archs → Result Archs
unfolding macho_read word_at parse_magic
parse_macho zero memory input mt = out_of_fuel
parse_macho (suc fuel) memory input mt = do
  start ← or_erange (macho_read input input.data_at 4)
  magic ← word_at memory start
  parse_magic (parse_macho fuel memory) magic memory input mt
