-- ===== src/Machista/Tests.antt =====
-- The parser of libmachista.c on files that Machista/Encode writes and on others that are not well
-- formed.
use macports.Prelude.{
  ℕ, suc, ◌+◌, ◌≡◌, ◌≢◌, ◌⊎◌, refl, ap, subst, ◌==◌, ◌&&◌, if◌then◌else◌, [], ◌∷◌, ◌++◌, List,
  Bytes, length, codes, Bool, true, false, Option, none, some, arith,
}
use macports.Prelude.Words.{u32, read_u32}
use macports.Prelude.Text.{c_string, NoNull, null-NoNull}
use macports.Machista.Types.{
  MachoInput, MachoArch, string, unwritten, done, failed, outside, null_dereference, out_of_fuel,
  macho_erange, macho_emem, fat_magic,
}
use macports.Machista.Encode.{
  Dylib, rpath, id_dylib, load_dylib, other, weak, Image, word, encode_image, image_meaning,
  image_cost, command_size, IsImage,
}
use macports.Machista.Commands.{load_command, rpath_command, id_command}
use macports.Machista.Parse.{parse_macho, parse_thin, parse_universal}
use macports.Machista.RoundTrip.{parse_macho-image}
use macports.Machista.Universal.{
  Slice, descriptions, slices_meaning, slices_cost, parse_macho-universal,
}
use macports.Machista.Recursion.{parse_macho-endless}
use macports.Machista.Parts.{ShortUniversal}
use macports.Machista.Safety.{parse_file_bytes-IsInside}
use macports.Machista.Handle.{
  HashMap, Holdings, FileCalls, returns, macho_parse_file, macho_strerror,
}
use macports.Machista.Caching.{
  KeepsStored, macho_parse_file-again, macho_parse_file-releases, macho_parse_file-image,
}

abbrev curl : Dylib
curl = record {
  name = codes "/opt/lib/libcurl.4.dylib";
  padding = 0 ∷ 0 ∷ [];
  timestamp = 2;
  current_version = 458752;
  compatibility_version = 327680;
}

-- A file of 32 bits with its high bytes first.
abbrev tool : Image
tool = record {
  swapped = true;
  wide = false;
  cputype = 18;
  cpusubtype = 0;
  filetype = 2;
  sizeofcmds = 0;
  flags = 133;
  commands =
      other 25 (1 ∷ 2 ∷ 3 ∷ [])
      ∷ load_dylib weak curl
      ∷ rpath (codes "/opt/lib") []
      ∷ id_dylib curl
      ∷ [];
  contents = 7 ∷ 8 ∷ [];
}

curl-NoNull : NoNull curl.name
curl-NoNull = null-NoNull curl.name refl

tool-IsImage : IsImage tool
unfolding command_size
tool-IsImage = (
  omega arith,
  omega arith,
  (
    ((omega arith, omega arith, omega arith, omega arith, omega arith, omega arith), omega arith),
    (
      ((curl-NoNull, omega arith, omega arith, omega arith), omega arith),
      (
        (null-NoNull (codes "/opt/lib") refl, omega arith),
        (((curl-NoNull, omega arith, omega arith, omega arith), omega arith), tt),
      ),
    ),
  ),
)

-- What it costs is what it takes.
tool_parses :
    parse_macho 1
      (encode_image tool)
      (record { data_at = 0; data_length = length (encode_image tool) })
      ([], 5)
    ≡ done (image_meaning tool ∷ [], 0)
unfolding parse_macho encode_image image_meaning read_u32 parse_thin load_command c_string
    rpath_command id_command
tool_parses = refl

-- The last of several commands for a path wins.
tool_rpath : (image_meaning tool).mat_rpath ≡ string (codes "/opt/lib")
unfolding image_meaning
tool_rpath = refl

parse_macho-image_example :
    parse_macho
      (suc 0)
      (9 ∷ (encode_image tool ++ (9 ∷ [])))
      (record { data_at = 1; data_length = length (encode_image tool) })
      ([], image_cost tool + 0)
    ≡ done (image_meaning tool ∷ [], 0)
unfolding image_cost
parse_macho-image_example =
    parse_macho-image 0 (9 ∷ (encode_image tool ++ (9 ∷ [])))
      (record { data_at = 1; data_length = length (encode_image tool) }) tool (9 ∷ []) []
      (image_cost tool + 0) 0 tool-IsImage refl (omega arith) refl

abbrev slice : Slice
slice = record { slice_cputype = 18; slice_cpusubtype = 0; offset = 28; align = 2; image = tool }

abbrev fat : Bytes
unfolding encode_image
fat =
    word true fat_magic
    ++ (word true 1 ++ (descriptions (slice ∷ []) ++ (encode_image tool ++ 0 ∷ [])))

abbrev fat_input : MachoInput
fat_input = record { data_at = 0; data_length = 28 + length (encode_image tool) }

parse_macho-universal_example :
    parse_macho 2 fat fat_input ([], slices_cost (slice ∷ []) + 0)
    ≡ done (slices_meaning (slice ∷ []) [], 0)
unfolding word descriptions encode_image
parse_macho-universal_example =
    parse_macho-universal 0 fat fat_input (slice ∷ []) (encode_image tool ++ 0 ∷ []) [] 0
      ((tool-IsImage, omega arith, omega arith, omega arith, (0 ∷ [], refl)), tt) (omega arith) refl
      (omega arith) (omega arith)

-- A universal file of 28 bytes that describes itself.
abbrev ring : Bytes
ring =
    word true fat_magic
    ++ (word true 1
        ++ (word true 7 ++ (word true 3 ++ (word true 0 ++ (word true 28 ++ word true 0)))))

parse_macho-endless_example :
    parse_macho 5 ring (record { data_at = 0; data_length = 28 }) ([], 1) ≡ out_of_fuel
parse_macho-endless_example =
    parse_macho-endless ring (record { data_at = 0; data_length = 28 }) 0 7 3 (word true 0)
      (omega arith) (omega arith) (omega arith) refl 5 ([], 1)

-- A command whose size is larger than the file.
parse_file_bytes-IsInside_example :
    (parse_macho 1 (encode_image tool ++ 0 ∷ []) (record { data_at = 0; data_length = 60 }) ([], 9)
      ≢ outside)
    × ((parse_macho 1
            (encode_image tool ++ 0 ∷ [])
            (record { data_at = 0; data_length = 60 })
            ([], 9)
          ≢ null_dereference)
        ⊎ ShortUniversal (encode_image tool ++ 0 ∷ []) (record { data_at = 0; data_length = 60 }))
unfolding encode_image
parse_file_bytes-IsInside_example =
    parse_file_bytes-IsInside (encode_image tool) [] 1 (record { data_at = 0; data_length = 60 })
      ([], 9) (omega arith)

short_command :
    parse_macho 1 (encode_image tool) (record { data_at = 0; data_length = 60 }) ([], 9)
    ≡ failed macho_erange
unfolding parse_macho encode_image read_u32 parse_thin
short_command = refl

-- Seven bytes with the magic number of universal files: the header is not there.
short_universal :
    parse_macho 1
      (u32 fat_magic ++ 0 ∷ 0 ∷ 0 ∷ [])
      (record { data_at = 0; data_length = 7 })
      ([], 9)
    ≡ null_dereference
unfolding parse_macho read_u32 u32 parse_universal
short_universal = refl

-- A library's name without a null character, at the end of a mapping that is filled by the file.
abbrev unterminated : Image
unterminated = record tool {
  commands = other 2147483676 (12 ∷ 0 ∷ 0 ∷ 0 ∷ b'/' ∷ []) ∷ [];
  contents = [];
}

name_outside :
    parse_macho 1
      (encode_image unterminated)
      (record { data_at = 0; data_length = length (encode_image unterminated) })
      ([], 9)
    ≡ outside
unfolding parse_macho encode_image read_u32 parse_thin rpath_command c_string
name_outside = refl

-- A command for a path of no bytes: nothing is written to the buffer.
abbrev no_path : Image
no_path = record tool { commands = other 2147483676 (12 ∷ 0 ∷ 0 ∷ 0 ∷ []) ∷ []; contents = 0 ∷ [] }

path_unwritten :
    parse_macho 1
      (encode_image no_path)
      (record { data_at = 0; data_length = length (encode_image no_path) })
      ([], 9)
    ≡ done (record (image_meaning no_path) { mat_rpath = unwritten } ∷ [], 7)
unfolding parse_macho encode_image image_meaning read_u32 parse_thin rpath_command c_string
path_unwritten = refl

strerror_codes : macho_strerror 16 ≡ some (codes "Not a Mach-O file")
unfolding macho_strerror
strerror_codes = refl

strerror_behind : macho_strerror 32 ≡ none
unfolding macho_strerror
strerror_behind = refl

abbrev same : Bytes → Bytes → Bool
same [] [] = true
same (a ∷ l) (b ∷ r) = a == b && same l r
same _ _ = false

same_refl : (s : Bytes) → same s s ≡ true
same_refl [] = refl
same_refl (a ∷ s) = ground (arith, same_refl s)

-- A hash map as a function.
abbrev Store : Type 0
Store = Bytes → Option (List MachoArch)

abbrev store : HashMap Store
store = record {
  hash_map_get = λ m path. m path;
  hash_map_put = λ m path archs. ((λ other. if same other path then some archs else m other), true);
}

store_keeps : KeepsStored store
store_keeps m m' path archs e =
    subst (λ n. n path ≡ some archs) (ap (λ x. x.0) e) (rw (same_refl path) refl)

abbrev process : Holdings Store
process = record { result_map = λ path. none; descriptors = 3; mappings = 0 }

-- The process once `tool` is parsed.
abbrev later : Holdings Store
later = record {
  result_map = λ other. if same other (codes "tool") then some (image_meaning tool ∷ []) else none;
  descriptors = 3;
  mappings = 0;
}

abbrev readable : ℕ → FileCalls
readable heap = record {
  open_works = true;
  st_size = some (length (encode_image tool));
  mapped = some (encode_image tool ++ 0 ∷ []);
  heap = heap;
}

abbrev unreadable : FileCalls
unreadable = record { open_works = false; st_size = none; mapped = none; heap = 0 }

tool_read :
    macho_parse_file store 1 (codes "tool") (readable (1 + image_cost tool)) none process
    ≡ returns none (some (image_meaning tool ∷ [])) later
unfolding image_cost
tool_read =
    macho_parse_file-image store 0 (codes "tool") tool (0 ∷ []) 0 none process later.result_map
      tool-IsImage refl refl

macho_parse_file-again_example :
    macho_parse_file store 1 (codes "tool") unreadable none later
    ≡ returns none (some (image_meaning tool ∷ [])) later
macho_parse_file-again_example =
    macho_parse_file-again store store_keeps (suc 0) 1 (codes "tool")
      (readable (1 + image_cost tool)) unreadable none (some (image_meaning tool ∷ [])) none process
      later tool_read

abbrev leaked : Holdings Store
leaked = record process { descriptors = 4; mappings = 1 }

no_memory :
    macho_parse_file store 1 (codes "tool") (readable 0) none process
    ≡ returns (some macho_emem) none leaked
unfolding macho_parse_file
no_memory = refl

macho_parse_file-releases_example :
    ((leaked.descriptors ≡ process.descriptors) × (leaked.mappings ≡ process.mappings))
    ⊎ (((readable 0).heap ≡ 0)
        × (some macho_emem ≡ some macho_emem)
        × (leaked.descriptors ≡ process.descriptors + 1)
        × (leaked.mappings ≡ process.mappings + 1))
macho_parse_file-releases_example =
    macho_parse_file-releases store 1 (codes "tool") (readable 0) none none (some macho_emem)
      process leaked no_memory
