-- ===== src/Machista/Recursion.antt =====
-- A universal file that describes itself, in `parse_macho` of libmachista.c.
use macports.Prelude.{
  ℕ, zero, suc, ◌+◌, ◌-◌, ◌^◌, ◌≤◌, ◌<◌, ◌≡◌, refl, ◌++◌, Bytes, drop, true, arith,
}
use macports.Prelude.Words.{u32}
use macports.Machista.Types.{MachoInput, Result, out_of_fuel, fat_magic}
use macports.Machista.Reading.{macho_offset}
use macports.Machista.Parse.{parse_archs, parse_universal, parse_macho, Archs}
use macports.Machista.Encode.{word}
use macports.Machista.Fields.{drop-from, field-word, word_at-word, macho_read-in}
use macports.Machista.Universal.{parse_magic-universal}

add_zero : (n : ℕ) → n + 0 ≡ n
add_zero n = omega arith

parse_archs-endless :
    (parse : MachoInput → Archs → Result Archs) (m : Bytes) (input : MachoInput)
    (n cputype cpusubtype arch : ℕ) (rest : Bytes) (mt : Archs)
    → input.data_length < 2 ^ 32
    → input.data_at ≤ arch
    → arch + 20 ≤ input.data_at + input.data_length
    → drop arch m
      ≡ word true cputype
        ++ (word true cpusubtype ++ (word true 0 ++ (word true input.data_length ++ rest)))
    → parse input mt ≡ out_of_fuel
    → parse_archs parse m input (suc n) arch mt ≡ out_of_fuel
unfolding parse_archs macho_offset word u32
parse_archs-endless parse m input n c d arch rest mt hl h k e p =
    rw
      (
        macho_offset,
        macho_read-in input arch 20 h k,
        field-word (arch + 12) m true input.data_length _ hl (drop-from arch 12 m _ e),
        field-word (arch + 8) m true 0 _ (omega arith) (drop-from arch 8 m _ e),
        macho_read-in input (input.data_at + 0) input.data_length (omega arith) (omega arith),
        add_zero input.data_at,
        p,
      )
      refl

-- A universal file whose first description points to the file itself is parsed anew at every depth:
-- no number of nested calls is enough. The descriptions behind the first do not matter.
pub parse_macho-endless :
    (m : Bytes) (input : MachoInput) (n cputype cpusubtype : ℕ) (rest : Bytes)
    → n < 2 ^ 32 - 1
    → input.data_length < 2 ^ 32
    → 28 ≤ input.data_length
    → drop input.data_at m
      ≡ word true fat_magic
        ++ (word true (suc n)
            ++ (word true cputype
                ++ (word true cpusubtype
                    ++ (word true 0 ++ (word true input.data_length ++ rest)))))
    → (fuel : ℕ) (mt : Archs) → parse_macho fuel m input mt ≡ out_of_fuel
unfolding parse_macho parse_universal macho_offset word u32
parse_macho-endless m input n c d rest hn hl h e zero mt = refl
parse_macho-endless m input n c d rest hn hl h e (suc fuel) mt =
    let at = input.data_at in
    rw
      (
        macho_offset,
        macho_read-in input at 4 (omega arith) (omega (arith, h)),
        word_at-word at m true fat_magic _ (omega arith) e,
        parse_magic-universal (parse_macho fuel m) m input mt,
        parse_universal,
        macho_read-in input at 8 (omega arith) (omega (arith, h)),
        field-word (at + 4) m true (suc n) _ (omega (arith, hn)) (drop-from at 4 m _ e),
        macho_read-in input (at + 8) 20 (omega arith) (omega (arith, h)),
      )
      (parse_archs-endless (parse_macho fuel m) m input n c d (at + 8) rest mt hl (omega arith)
        (omega (arith, h)) (drop-from at 8 m _ e)
        (parse_macho-endless m input n c d rest hn hl h e fuel mt))
