-- ===== src/Machista/Handle.antt =====
-- `macho_parse_file`, the handle and `macho_strerror` of libmachista.c. The hash map of a handle is
-- a parameter, by the two calls of it; what the operating system answers is an argument.
use macports.Prelude.{
  ℕ, zero, suc, ◌+◌, ◌-◌, ◌/◌, [], ◌∷◌, List, Bytes, codes, if◌then◌else◌, ◌==◌, Bool, Option, none,
  some,
}
use macports.Machista.Types.{
  MachoArch, MachoError, macho_efile, macho_emmap, macho_emem, macho_erange, macho_emagic, Result,
  done, failed, outside, null_dereference, out_of_fuel,
}
use macports.Machista.Parse.{parse_macho}

-- The operations of the hash map that the parser calls: `hashMapGet`, and `hashMapPut`, which tells
-- whether it succeeded. A value is the list of a `macho_t`.
pub record HashMap (Map : Type 0) : Type 0 where
  pub hash_map_get : Map → Bytes → Option (List MachoArch)
  pub hash_map_put : Map → Bytes → List MachoArch → Map × Bool

-- What the process holds: the handle's `result_map`, the open file descriptors and the mappings.
pub record Holdings (Map : Type 0) : Type 0 where
  pub result_map : Map
  pub descriptors : ℕ
  pub mappings : ℕ

-- The answers of `open`, `fstat` with the size, `mmap` with the mapped memory, and the allocations
-- that succeed before the first that fails.
pub record FileCalls : Type 0 where
  pub open_works : Bool
  pub st_size : Option ℕ
  pub mapped : Option Bytes
  pub heap : ℕ

-- What `macho_parse_file` does: it returns a code, none for MACHO_SUCCESS, with what `*res` points to
-- and the process, or the parser does not come back.
pub data Parsed (Map : Type 0) : Type 0 where
  returns : Option MachoError → Option (List MachoArch) → Holdings Map → Parsed Map
  crashed : Parsed Map
  endless : Parsed Map

module _ {Map : Type 0} where
  -- A call of `open` that succeeds, and `close`.
  abbrev pub file_opened : Holdings Map → Holdings Map
  file_opened p = record p { descriptors = p.descriptors + 1 }

  abbrev pub file_closed : Holdings Map → Holdings Map
  file_closed p = record p { descriptors = p.descriptors - 1 }

module _ {Map : Type 0} (map : HashMap Map) where
  -- The end of the function after the parser: `munmap` and `close`.
  abbrev pub released : Option MachoError → Option (List MachoArch) → Holdings Map → Parsed Map
  released code res p = returns code res (file_closed (record p { mappings = p.mappings - 1 }))

  -- What follows `parse_macho`, by its result.
  unfoldable pub after_parse : Bytes → Holdings Map → Result (List MachoArch × ℕ) → Parsed Map
  after_parse path p (done (archs, _)) =
      let (m, stored) = map.hash_map_put p.result_map path archs in
      if stored
      then released none (some archs) (record p { result_map = m })
      else released (some macho_emem) none (record p { result_map = m })
  after_parse path p (failed e) = released (some e) none p
  after_parse path p outside = crashed
  after_parse path p null_dereference = crashed
  after_parse path p out_of_fuel = endless

  -- `macho_parse_file` behind the look into the hash map.
  unfoldable pub parse_new :
      ℕ → Bytes → FileCalls → Option (List MachoArch) → Holdings Map → Parsed Map
  unfolding after_parse
  parse_new fuel path calls res p =
      if calls.open_works
      then elim calls.st_size [
        | none ↦ returns (some macho_efile) res (file_closed (file_opened p))
        | some size ↦ elim calls.mapped [
          | none ↦ returns (some macho_emmap) res (file_closed (file_opened p))
          | some memory ↦
              let q = record (file_opened p) { mappings = p.mappings + 1 } in
              elim calls.heap [
                | zero ↦ returns (some macho_emem) none q
                | suc heap ↦ after_parse path q (
                    parse_macho fuel memory (record { data_at = 0; data_length = size }) ([], heap))
              ]
        ]
      ]
      else returns (some macho_efile) res p

  unfoldable pub macho_parse_file :
      ℕ → Bytes → FileCalls → Option (List MachoArch) → Holdings Map → Parsed Map
  unfolding parse_new
  macho_parse_file fuel path calls res p = elim (map.hash_map_get p.result_map path) [
    | some archs ↦ returns none (some archs) p
    | none ↦ parse_new fuel path calls res p
  ]

-- The MACHO_* numbers.
abbrev pub code_of : MachoError → ℕ
code_of macho_efile = 1
code_of macho_emmap = 2
code_of macho_emem = 4
code_of macho_erange = 8
code_of macho_emagic = 16

-- The loop that counts the bits of a number, with enough fuel for any number.
unfoldable pub bits_from : ℕ → ℕ → ℕ
bits_from zero err = 0
bits_from (suc fuel) err = let rest = bits_from fuel (err / 2) in if err == 0 then 0 else 1 + rest

abbrev pub errors : List Bytes
errors =
    codes "Success"
    ∷ codes "Error opening or reading file"
    ∷ codes "Error mapping file into memory"
    ∷ codes "Error allocating memory"
    ∷ codes "Premature end of data, possibly corrupt file"
    ∷ codes "Not a Mach-O file"
    ∷ []

abbrev pub get_elem? : List Bytes → ℕ → Option Bytes
get_elem? [] i = none
get_elem? (x ∷ xs) zero = some x
get_elem? (x ∷ xs) (suc i) = get_elem? xs i

-- `macho_strerror`; none is a read behind the table.
unfoldable pub macho_strerror : ℕ → Option Bytes
unfolding bits_from
macho_strerror err = get_elem? errors (bits_from err err)
