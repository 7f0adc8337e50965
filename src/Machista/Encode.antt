-- ===== src/Machista/Encode.antt =====
-- Mach-O files as the format describes them, from which the parser is to read back what they say:
-- load commands, files for one architecture and universal files, in either byte order.
use macports.Prelude.{
  ℕ, ◌+◌, ◌<◌, ◌^◌, ◌≢◌, [], ◌∷◌, ◌++◌, List, Bytes, All, length, Bool, true, false,
}
use macports.Prelude.Words.{u32}
use macports.Prelude.Text.{NoNull}
use macports.Machista.Types.{
  MachoArch, zero_arch, string, lc_rpath, lc_id_dylib, lc_load_dylib, lc_load_weak_dylib,
  lc_reexport_dylib, mh_magic, mh_magic_64,
}
use macports.Machista.Reading.{swap32}

-- How another library is loaded.
pub data DylibKind : Type 0 where
  plain weak reexport : DylibKind

abbrev pub kind_type : DylibKind → ℕ
kind_type plain = lc_load_dylib
kind_type weak = lc_load_weak_dylib
kind_type reexport = lc_reexport_dylib

-- A library's name with the bytes that pad its command, its time stamp and its versions.
pub record Dylib : Type 0 where
  pub name : Bytes
  pub padding : Bytes
  pub timestamp : ℕ
  pub current_version : ℕ
  pub compatibility_version : ℕ

-- A load command. `other` is one of a type that the parser skips.
pub data LoadCommand : Type 0 where
  rpath : Bytes → Bytes → LoadCommand
  id_dylib : Dylib → LoadCommand
  load_dylib : DylibKind → Dylib → LoadCommand
  other : ℕ → Bytes → LoadCommand

-- A number in the byte order of the file.
unfoldable pub word : Bool → ℕ → Bytes
unfolding u32 swap32
word swapped n = u32 (swap32 swapped n)

abbrev pub text : Bytes → Bytes → Bytes
text name padding = name ++ 0 ∷ padding

abbrev pub command_type : LoadCommand → ℕ
command_type (rpath path padding) = lc_rpath
command_type (id_dylib d) = lc_id_dylib
command_type (load_dylib k d) = kind_type k
command_type (other t body) = t

unfoldable pub dylib_body : Bool → Dylib → Bytes
unfolding word
dylib_body swapped d =
    word swapped 24
    ++ (word swapped d.timestamp
        ++ (word swapped d.current_version
            ++ (word swapped d.compatibility_version ++ text d.name d.padding)))

-- What follows the type and the size of a command.
unfoldable pub body : Bool → LoadCommand → Bytes
unfolding dylib_body word
body swapped (rpath path padding) = word swapped 12 ++ text path padding
body swapped (id_dylib d) = dylib_body swapped d
body swapped (load_dylib k d) = dylib_body swapped d
body swapped (other t b) = b

abbrev pub text_size : Bytes → Bytes → ℕ
text_size name padding = length name + (1 + length padding)

unfoldable pub command_size : LoadCommand → ℕ
command_size (rpath path padding) = 12 + text_size path padding
command_size (id_dylib d) = 24 + text_size d.name d.padding
command_size (load_dylib k d) = 24 + text_size d.name d.padding
command_size (other t b) = 8 + length b

unfoldable pub encode_command : Bool → LoadCommand → Bytes
unfolding body command_size word
encode_command swapped c =
    word swapped (command_type c) ++ (word swapped (command_size c) ++ body swapped c)

unfoldable pub encode_commands : Bool → List LoadCommand → Bytes
unfolding encode_command
encode_commands swapped [] = []
encode_commands swapped (c ∷ cs) = encode_command swapped c ++ encode_commands swapped cs

-- What a command says of the architecture, where later commands win and libraries come in front.
unfoldable pub meaning : LoadCommand → MachoArch → MachoArch
meaning (rpath path padding) mat = record mat { mat_rpath = string path }
meaning (id_dylib d) mat = record mat {
  mat_install_name = string d.name;
  mat_version = d.current_version;
  mat_comp_version = d.compatibility_version;
}
meaning (load_dylib k d) mat = record mat {
  mat_loadcmds =
      record {
        mlt_install_name = string d.name;
        mlt_type = kind_type k;
        mlt_comp_version = d.compatibility_version;
        mlt_version = d.current_version;
      }
      ∷ mat.mat_loadcmds;
}
meaning (other t b) mat = mat

unfoldable pub meanings : List LoadCommand → MachoArch → MachoArch
unfolding meaning
meanings [] mat = mat
meanings (c ∷ cs) mat = meanings cs (meaning c mat)

-- The allocations of the parser.
unfoldable pub cost : LoadCommand → ℕ
cost (rpath path padding) = 1
cost (id_dylib d) = 1
cost (load_dylib k d) = 2
cost (other t b) = 0

unfoldable pub costs : List LoadCommand → ℕ
unfolding cost
costs [] = 0
costs (c ∷ cs) = cost c + costs cs

-- A library whose numbers are of 32 bits and whose name has no null character.
abbrev pub IsDylib : Dylib → Type 0
IsDylib d =
    NoNull d.name
    × (d.timestamp < 2 ^ 32)
    × (d.current_version < 2 ^ 32)
    × (d.compatibility_version < 2 ^ 32)

-- A type that `parse_macho` does not know.
abbrev pub IsOther : ℕ → Type 0
IsOther t =
    (t < 2 ^ 32)
    × (t ≢ lc_rpath)
    × (t ≢ lc_id_dylib)
    × (t ≢ lc_load_dylib)
    × (t ≢ lc_load_weak_dylib)
    × (t ≢ lc_reexport_dylib)

abbrev pub IsParts : LoadCommand → Type 0
IsParts (rpath path padding) = NoNull path
IsParts (id_dylib d) = IsDylib d
IsParts (load_dylib k d) = IsDylib d
IsParts (other t b) = IsOther t

abbrev pub IsCommand : LoadCommand → Type 0
IsCommand c = IsParts c × (command_size c < 2 ^ 32)

-- A file for one architecture: whether its byte order is not the host's, whether it is of 64 bits,
-- the fields of its header, its commands, and all that follows them.
pub record Image : Type 0 where
  pub swapped : Bool
  pub wide : Bool
  pub cputype : ℕ
  pub cpusubtype : ℕ
  pub filetype : ℕ
  pub sizeofcmds : ℕ
  pub flags : ℕ
  pub commands : List LoadCommand
  pub contents : Bytes

abbrev pub magic_of : Bool → ℕ
magic_of true = mh_magic_64
magic_of false = mh_magic

-- The field that only a header of 64 bits has.
unfoldable pub reserved : Bool → Bool → Bytes
unfolding word
reserved swapped true = word swapped 0
reserved swapped false = []

unfoldable pub encode_image : Image → Bytes
unfolding word reserved encode_commands
encode_image i =
    word i.swapped (magic_of i.wide)
    ++ (word i.swapped i.cputype
        ++ (word i.swapped i.cpusubtype
            ++ (word i.swapped i.filetype
                ++ (word i.swapped (length i.commands)
                    ++ (word i.swapped i.sizeofcmds
                        ++ (word i.swapped i.flags
                            ++ (reserved i.swapped i.wide
                                ++ (encode_commands i.swapped i.commands ++ i.contents))))))))

unfoldable pub image_meaning : Image → MachoArch
unfolding meanings
image_meaning i = meanings i.commands (record zero_arch { mat_arch = i.cputype })

-- The size of a header.
abbrev pub header_size_of : Bool → ℕ
header_size_of true = 32
header_size_of false = 28

-- The allocations of the parser for a file of one architecture.
unfoldable pub image_cost : Image → ℕ
unfolding costs
image_cost i = 1 + costs i.commands

abbrev pub IsImage : Image → Type 0
IsImage i = (i.cputype < 2 ^ 32) × (length i.commands < 2 ^ 32) × All IsCommand i.commands
