-- ===== src/Machista/Types.antt =====
-- The data of base/src/machista1.0/libmachista.h, the numbers of the Mach-O format that
-- libmachista.c takes from <mach-o/loader.h> and <mach-o/fat.h>, and the results of its functions.
use macports.Prelude.{ℕ, [], Bytes, List}

-- A `char *` that the parser fills by strlcpy(3): NULL, a buffer of no bytes that nothing was written
-- to, or a string.
pub data Name : Type 0 where
  null : Name
  unwritten : Name
  string : Bytes → Name

-- `macho_loadcmd_t`. The list of them is a List, in the order of the `next` pointers.
pub record MachoLoadcmd : Type 0 where
  pub mlt_install_name : Name
  pub mlt_type : ℕ
  pub mlt_comp_version : ℕ
  pub mlt_version : ℕ

-- `macho_arch_t`.
pub record MachoArch : Type 0 where
  pub mat_install_name : Name
  pub mat_rpath : Name
  pub mat_arch : ℕ
  pub mat_comp_version : ℕ
  pub mat_version : ℕ
  pub mat_loadcmds : List MachoLoadcmd

-- What `create_macho_arch_t` allocates.
abbrev pub zero_arch : MachoArch
zero_arch = record {
  mat_install_name = null;
  mat_rpath = null;
  mat_arch = 0;
  mat_comp_version = 0;
  mat_version = 0;
  mat_loadcmds = [];
}

-- `macho_input_t`: `data` is a distance from the start of the mapped file.
pub record MachoInput : Type 0 where
  pub data_at : ℕ
  pub data_length : ℕ

-- The MACHO_* codes.
pub data MachoError : Type 0 where
  macho_efile macho_emmap macho_emem macho_erange macho_emagic : MachoError

-- The result of a parsing function. `outside` is a read past the end of the mapping,
-- `null_dereference` one through a null pointer, and `out_of_fuel` belongs to the model only.
pub data Result {ℓ} (A : Type ℓ) : Type ℓ where
  done : A → Result A
  failed : MachoError → Result A
  outside : Result A
  null_dereference : Result A
  out_of_fuel : Result A

infixl 5 ◌>>=◌
abbrev pub ◌>>=◌ {ℓ κ} : {A : Type ℓ} {B : Type κ} → Result A → (A → Result B) → Result B
done a >>= f = f a
failed e >>= f = failed e
outside >>= f = outside
null_dereference >>= f = null_dereference
out_of_fuel >>= f = out_of_fuel

abbrev pub mh_magic : ℕ
mh_magic = 4277009102

abbrev pub mh_cigam : ℕ
mh_cigam = 3472551422

abbrev pub mh_magic_64 : ℕ
mh_magic_64 = 4277009103

abbrev pub mh_cigam_64 : ℕ
mh_cigam_64 = 3489328638

abbrev pub fat_magic : ℕ
fat_magic = 3405691582

abbrev pub fat_cigam : ℕ
fat_cigam = 3199925962

abbrev pub lc_rpath : ℕ
lc_rpath = 2147483676

abbrev pub lc_id_dylib : ℕ
lc_id_dylib = 13

abbrev pub lc_load_dylib : ℕ
lc_load_dylib = 12

abbrev pub lc_load_weak_dylib : ℕ
lc_load_weak_dylib = 2147483672

abbrev pub lc_reexport_dylib : ℕ
lc_reexport_dylib = 2147483679
