-- ===== src/Machista/Commands.antt =====
-- The load commands in `parse_macho` of libmachista.c. A command whose size is 0 is followed by
-- itself, as in the code, which counts the commands.
use macports.Prelude.{ℕ, zero, suc, ◌+◌, ◌-◌, ◌∷◌, Bytes, ltb, ◌==◌, ◌||◌, if◌then◌else◌, Bool}
use macports.Machista.Types.{
  MachoInput, MachoArch, Result, done, failed, ◌>>=◌, macho_erange, lc_rpath, lc_id_dylib,
  lc_load_dylib, lc_load_weak_dylib, lc_reexport_dylib,
}
use macports.Machista.Reading.{macho_read, macho_offset, or_erange, field, malloc, strlcpy}

-- The start of the string behind a command's structure of `size` bytes, if it ends with the command.
unfoldable pub name_pointer : MachoInput → ℕ → ℕ → ℕ → Result ℕ
unfolding macho_offset
name_pointer input size cmd cmdsize =
    if ltb cmdsize size
    then failed macho_erange
    else or_erange (macho_offset input cmd size (cmdsize - size))

-- LC_RPATH, with the allocations that are left before and after.
unfoldable pub rpath_command : Bytes → MachoInput → ℕ → ℕ → MachoArch → ℕ → Result (MachoArch × ℕ)
unfolding name_pointer strlcpy
rpath_command memory input cmd cmdsize mat heap = do
  ptr ← name_pointer input 12 cmd cmdsize
  heap' ← malloc heap
  name ← strlcpy memory ptr (cmdsize - 12)
  done (record mat { mat_rpath = name }, heap')

-- LC_ID_DYLIB.
unfoldable pub id_command :
    Bytes → MachoInput → Bool → ℕ → ℕ → MachoArch → ℕ → Result (MachoArch × ℕ)
unfolding name_pointer strlcpy field
id_command memory input swapped cmd cmdsize mat heap = do
  ptr ← name_pointer input 24 cmd cmdsize
  heap' ← malloc heap
  name ← strlcpy memory ptr (cmdsize - 24)
  version ← field memory swapped (cmd + 16)
  comp_version ← field memory swapped (cmd + 20)
  done (
    record mat { mat_install_name = name; mat_version = version; mat_comp_version = comp_version },
    heap',
  )

-- LC_LOAD_DYLIB, LC_LOAD_WEAK_DYLIB and LC_REEXPORT_DYLIB. `macho_loadcmdlist_append` puts the new
-- element in front.
unfoldable pub load_command :
    Bytes → MachoInput → Bool → ℕ → ℕ → ℕ → MachoArch → ℕ → Result (MachoArch × ℕ)
unfolding name_pointer strlcpy field
load_command memory input swapped cmd_type cmd cmdsize mat heap = do
  ptr ← name_pointer input 24 cmd cmdsize
  heap' ← malloc heap
  heap'' ← malloc heap'
  name ← strlcpy memory ptr (cmdsize - 24)
  version ← field memory swapped (cmd + 16)
  comp_version ← field memory swapped (cmd + 20)
  done (
    record mat {
      mat_loadcmds =
          record {
            mlt_install_name = name;
            mlt_type = cmd_type;
            mlt_comp_version = comp_version;
            mlt_version = version;
          }
          ∷ mat.mat_loadcmds;
    },
    heap'',
  )

-- The `switch` over the type of a command.
unfoldable pub handle_command :
    Bytes → MachoInput → Bool → ℕ → ℕ → ℕ → MachoArch → ℕ → Result (MachoArch × ℕ)
handle_command memory input swapped cmd_type cmd cmdsize mat heap =
    if cmd_type == lc_rpath
    then rpath_command memory input cmd cmdsize mat heap
    else if cmd_type == lc_id_dylib
    then id_command memory input swapped cmd cmdsize mat heap
    else if cmd_type == lc_load_weak_dylib
        || cmd_type == lc_reexport_dylib
        || cmd_type == lc_load_dylib
    then load_command memory input swapped cmd_type cmd cmdsize mat heap
    else done (mat, heap)

-- The loop over the commands: `cmd` and `cmdsize` are those of the command before, at first the header.
unfoldable pub load_commands :
    Bytes → MachoInput → Bool → ℕ → ℕ → ℕ → MachoArch → ℕ → Result (MachoArch × ℕ)
unfolding macho_offset macho_read field handle_command
load_commands memory input swapped zero cmd cmdsize mat heap = done (mat, heap)
load_commands memory input swapped (suc n) cmd cmdsize mat heap = do
  here ← or_erange (macho_offset input cmd cmdsize 8)
  size ← field memory swapped (here + 4)
  whole ← or_erange (macho_read input here size)
  cmd_type ← field memory swapped whole
  (mat', heap') ← handle_command memory input swapped cmd_type whole size mat heap
  load_commands memory input swapped n whole size mat' heap'
