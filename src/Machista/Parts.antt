-- ===== src/Machista/Parts.antt =====
-- The inputs that the parser of libmachista.c meets in a file, and the ones with a universal header
-- that is cut off.
use macports.Prelude.{ℕ, ◌+◌, ◌*◌, ◌≤◌, ◌<◌, ◌≡◌, Bytes, true, ◌==◌, ◌||◌}
use macports.Machista.Types.{MachoInput, done, fat_magic, fat_cigam}
use macports.Machista.Reading.{word_at, field}

-- An input begins with the magic number of universal files, in one of the byte orders.
abbrev pub IsUniversal : Bytes → MachoInput → Type 0
IsUniversal m input =
    (magic : ℕ) × (word_at m input.data_at ≡ done magic)
    × ((magic == fat_cigam || magic == fat_magic) ≡ true)

-- An input, and what the descriptions in a universal file of it name as the file for an architecture:
-- the description `i` stands behind the header and `i` others, with the offset and the size.
pub data Part (m : Bytes) (root : MachoInput) : MachoInput → Type 0 where
  whole : Part m root root
  slice :
      {file : MachoInput} (i offset len : ℕ)
      → Part m root file
      → IsUniversal m file
      → file.data_at + 8 + 20 * i + 20 ≤ file.data_at + file.data_length
      → field m true (file.data_at + 8 + 20 * i + 8) ≡ done offset
      → field m true (file.data_at + 8 + 20 * i + 12) ≡ done len
      → offset + len ≤ file.data_length
      → Part m root (record { data_at = file.data_at + offset; data_length = len })

-- A part with the magic number of universal files and without the eight bytes of their header.
abbrev pub ShortUniversal : Bytes → MachoInput → Type 0
ShortUniversal m root =
    (part : MachoInput) × Part m root part
    × IsUniversal m part
    × (4 ≤ part.data_length)
    × (part.data_length < 8)
