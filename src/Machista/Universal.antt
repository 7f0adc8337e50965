-- ===== src/Machista/Universal.antt =====
-- Universal files in `parse_macho` of libmachista.c: the files of several architectures in one, and
-- those that hold themselves.
use macports.Prelude.{
  ℕ, suc, ◌+◌, ◌^◌, ◌≤◌, ◌<◌, ◌≡◌, refl, ap, [], ◌∷◌, ◌++◌, List, All, Bytes, length, drop, true,
  arith,
}
use macports.Prelude.Words.{u32}
use macports.Machista.Types.{MachoInput, MachoArch, Result, done, fat_magic}
use macports.Machista.Reading.{macho_offset, swap32, macho_swap32}
use macports.Machista.Parse.{parse_archs, parse_universal, parse_magic, parse_macho, Archs}
use macports.Machista.Encode.{word, Image, encode_image, image_meaning, image_cost, IsImage}
use macports.Machista.Fields.{drop-from, field-word, word_at-word, macho_read-in}
use macports.Machista.RoundTrip.{parse_macho-image}

-- The description of one architecture in a universal file, with the file that it describes.
pub record Slice : Type 0 where
  pub slice_cputype : ℕ
  pub slice_cpusubtype : ℕ
  pub offset : ℕ
  pub align : ℕ
  pub image : Image

abbrev pub slice_length : Slice → ℕ
slice_length s = length (encode_image s.image)

-- The descriptions, whose numbers have their high byte first.
unfoldable pub descriptions : List Slice → Bytes
unfolding word
descriptions [] = []
descriptions (s ∷ ss) =
    word true s.slice_cputype
    ++ (word true s.slice_cpusubtype
        ++ (word true s.offset
            ++ (word true (slice_length s) ++ (word true s.align ++ descriptions ss))))

unfoldable pub slices_meaning : List Slice → List MachoArch → List MachoArch
slices_meaning [] archs = archs
slices_meaning (s ∷ ss) archs = slices_meaning ss (image_meaning s.image ∷ archs)

unfoldable pub slices_cost : List Slice → ℕ
slices_cost [] = 0
slices_cost (s ∷ ss) = image_cost s.image + slices_cost ss

-- The described file stands at its offset, within the input.
abbrev pub IsSlice : Bytes → MachoInput → Slice → Type 0
IsSlice m input s =
    IsImage s.image
    × (s.offset < 2 ^ 32)
    × (slice_length s < 2 ^ 32)
    × (s.offset + slice_length s ≤ input.data_length)
    × ((rest : Bytes) × (drop (input.data_at + s.offset) m ≡ encode_image s.image ++ rest))

parse_archs-reads :
    (fuel : ℕ) (m : Bytes) (input : MachoInput) (ss : List Slice) (rest : Bytes) (arch : ℕ)
    (archs : List MachoArch) (heap left : ℕ)
    → All (IsSlice m input) ss
    → drop arch m ≡ descriptions ss ++ rest
    → input.data_at ≤ arch
    → arch + length (descriptions ss) ≤ input.data_at + input.data_length
    → heap ≡ slices_cost ss + left
    → parse_archs (parse_macho (suc fuel) m) m input (length ss) arch (archs, heap)
      ≡ done (slices_meaning ss archs, left)
unfolding parse_archs descriptions word u32 slices_meaning slices_cost macho_offset
parse_archs-reads fuel m input [] rest arch archs heap left h e i k a =
    ap (λ n. done (archs, n)) (omega (arith, a))
parse_archs-reads fuel m input (s ∷ ss) rest arch archs heap left h e i k a =
    let start = input.data_at + s.offset in
    rw
      (
        macho_offset,
        macho_read-in input arch 20 i (omega (arith, k)),
        field-word (arch + 12) m true (slice_length s) _ h.0.2 (drop-from arch 12 m _ e),
        field-word (arch + 8) m true s.offset _ h.0.1 (drop-from arch 8 m _ e),
        macho_read-in input start (slice_length s) (omega arith) (omega (arith, h.0.3)),
        parse_macho-image fuel m (record { data_at = start; data_length = slice_length s }) s.image
            h.0.4.0 archs heap (slices_cost ss + left) h.0.0 h.0.4.1 (omega arith)
            (omega (arith, a)),
      )
      (parse_archs-reads fuel m input ss rest (arch + 20) (image_meaning s.image ∷ archs)
        (slices_cost ss + left) left h.1 (drop-from arch 20 m _ e) (omega (arith, i))
        (omega (arith, k)) refl)

pub parse_magic-universal :
    (parse : MachoInput → Archs → Result Archs) (m : Bytes) (input : MachoInput) (mt : Archs)
    → parse_magic parse (swap32 true fat_magic) m input mt ≡ parse_universal parse m input mt
unfolding parse_magic swap32 macho_swap32
parse_magic-universal parse m input mt = refl

-- A universal file gives what each of the files says that its descriptions point to, the last in
-- front, where every one of them lies within the universal file, has numbers and sizes of 32 bits and
-- no null character in a name, and the memory is enough.
pub parse_macho-universal :
    (fuel : ℕ) (m : Bytes) (input : MachoInput) (ss : List Slice) (rest : Bytes)
    (archs : List MachoArch) (left : ℕ)
    → All (IsSlice m input) ss
    → length ss < 2 ^ 32
    → drop input.data_at m
      ≡ word true fat_magic ++ (word true (length ss) ++ (descriptions ss ++ rest))
    → 28 ≤ input.data_length
    → 8 + length (descriptions ss) ≤ input.data_length
    → parse_macho (suc (suc fuel)) m input (archs, slices_cost ss + left)
      ≡ done (slices_meaning ss archs, left)
unfolding parse_macho parse_universal macho_offset word u32
parse_macho-universal fuel m input ss rest archs left h n e k l =
    let at = input.data_at in
    rw
      (
        macho_offset,
        macho_read-in input at 4 (omega arith) (omega (arith, k)),
        word_at-word at m true fat_magic _ (omega arith) e,
        parse_magic-universal (parse_macho (suc fuel) m) m input (archs, slices_cost ss + left),
        parse_universal,
        macho_read-in input at 8 (omega arith) (omega (arith, k)),
        field-word (at + 4) m true (length ss) _ n (drop-from at 4 m _ e),
        macho_read-in input (at + 8) 20 (omega arith) (omega (arith, k)),
      )
      (parse_archs-reads fuel m input ss rest (at + 8) archs (slices_cost ss + left) left h
        (drop-from at 8 m _ e) (omega arith) (omega (arith, l)) refl)
