-- ===== src/Machista/Reading.antt =====
-- How libmachista.c reads numbers and strings of the mapped file. The host stores the low byte of a
-- number first and has 64-bit pointers, so that no sum of addresses wraps. `memory` is the mapping:
-- the file and what the kernel fills its last page with.
use macports.Prelude.{
  ℕ, zero, suc, ◌+◌, ◌-◌, ◌*◌, ◌/◌, ◌%◌, ◌^◌, Bytes, drop, ltb, ◌==◌, if◌then◌else◌, Bool, true,
  false, Option, none, some, take,
}
use macports.Prelude.Words.{read_u32}
use macports.Prelude.Text.{c_string}
use macports.Machista.Types.{
  MachoInput, Result, done, failed, outside, macho_emem, macho_erange, Name, unwritten, string,
}

-- `macho_read` and `macho_offset`: the address, if the range lies within the input.
unfoldable pub macho_read : MachoInput → ℕ → ℕ → Option ℕ
macho_read input address len =
    if ltb input.data_length (address - input.data_at + len) then none else some address

unfoldable pub macho_offset : MachoInput → ℕ → ℕ → ℕ → Option ℕ
unfolding macho_read
macho_offset input address offset len = macho_read input (address + offset) len

-- `if (p == NULL) return MACHO_ERANGE`.
abbrev pub or_erange : Option ℕ → Result ℕ
or_erange none = failed macho_erange
or_erange (some a) = done a

-- A field of type `uint32_t`.
unfoldable pub word_at : Bytes → ℕ → Result ℕ
word_at memory address = elim (read_u32 (drop address memory)) [
  | none ↦ outside
  | some (n, _) ↦ done n
]

-- `OSSwapInt32`, the operation behind `macho_swap32` and, on this host, `OSSwapBigToHostInt32`.
unfoldable pub macho_swap32 : ℕ → ℕ
macho_swap32 n =
    n % 2 ^ 8 * 2 ^ 24
    + n / 2 ^ 8 % 2 ^ 8 * 2 ^ 16
    + n / 2 ^ 16 % 2 ^ 8 * 2 ^ 8
    + n / 2 ^ 24 % 2 ^ 8

-- The function pointer `swap32`: `macho_swap32` or `macho_nswap32`.
unfoldable pub swap32 : Bool → ℕ → ℕ
unfolding macho_swap32
swap32 true n = macho_swap32 n
swap32 false n = n

-- A field in the byte order of the file.
unfoldable pub field : Bytes → Bool → ℕ → Result ℕ
unfolding word_at swap32
field memory swapped address = elim (word_at memory address) [
  | done n ↦ done (swap32 swapped n)
  | failed e ↦ failed e
  | _ ↦ outside
]

-- `malloc`, as the number of allocations that succeed before the first that fails. The parser gives
-- up at the first.
abbrev pub malloc : ℕ → Result ℕ
malloc zero = failed macho_emem
malloc (suc heap) = done heap

-- `strlcpy` into a new buffer of `size` bytes. It measures the whole string at `address`.
unfoldable pub strlcpy : Bytes → ℕ → ℕ → Result Name
strlcpy memory address size = elim (c_string (drop address memory)) [
  | none ↦ outside
  | some (s, _) ↦ if size == 0 then done unwritten else done (string (take (size - 1) s))
]
