-- ===== src/Machista/RoundTrip.antt =====
-- The parser of libmachista.c reads back what the encodings of Machista/Encode say.
use macports.Prelude.{
  ℕ, suc, ◌+◌, ◌^◌, ◌≤◌, ◌<◌, ◌≡◌, refl, ap, sym, ◌∙◌, [], ◌∷◌, ◌++◌, List, All, Bytes, length,
  drop, Bool, true, false, arith, append_assoc, length-append,
}
use macports.Prelude.Words.{u32}
use macports.Machista.Types.{MachoInput, MachoArch, zero_arch, Result, done}
use macports.Machista.Reading.{macho_offset, swap32, macho_swap32}
use macports.Machista.Commands.{load_commands}
use macports.Machista.Parse.{parse_thin, parse_magic, parse_macho, Archs}
use macports.Machista.Encode.{
  word, LoadCommand, rpath, id_dylib, load_dylib, other, plain, weak, reexport, command_type,
  command_size, encode_command, encode_commands, meaning, meanings, costs, IsCommand, Image,
  encode_image, image_meaning, reserved, magic_of, header_size_of, image_cost, IsImage,
}
use macports.Machista.Fields.{drop-behind, drop-from, field-word, word_at-word, macho_read-in}
use macports.Machista.CommandsRead.{
  malloc-suc, command_size-ge, length-encode_command, handle_command-reads,
}

command_type-lt : (c : LoadCommand) → IsCommand c → command_type c < 2 ^ 32
command_type-lt (rpath p pad) h = omega arith
command_type-lt (id_dylib d) h = omega arith
command_type-lt (load_dylib plain d) h = omega arith
command_type-lt (load_dylib weak d) h = omega arith
command_type-lt (load_dylib reexport d) h = omega arith
command_type-lt (other t b) h = h.0.0

-- The memory and the room behind the first of several commands.
behind-first :
    (m : Bytes) (at : ℕ) (s : Bool) (c : LoadCommand) (cs : List LoadCommand) (rest : Bytes)
    → drop at m ≡ encode_commands s (c ∷ cs) ++ rest
    → drop (at + command_size c) m ≡ encode_commands s cs ++ rest
unfolding encode_commands
behind-first m at s c cs rest e =
    ap (λ n. drop (at + n) m) (sym (length-encode_command s c))
    ∙ drop-behind at m (encode_command s c) (encode_commands s cs ++ rest)
        (e ∙ append_assoc (encode_command s c) (encode_commands s cs) rest)

length-encode_commands :
    (s : Bool) (c : LoadCommand) (cs : List LoadCommand)
    → length (encode_commands s (c ∷ cs)) ≡ command_size c + length (encode_commands s cs)
unfolding encode_commands
length-encode_commands s c cs =
    omega
      (arith, length-append (encode_command s c) (encode_commands s cs), length-encode_command s c)

load_commands-reads :
    (m : Bytes) (input : MachoInput) (s : Bool) (cs : List LoadCommand) (rest : Bytes)
    (cmd size : ℕ) (mat : MachoArch) (heap left : ℕ)
    → All IsCommand cs
    → drop (cmd + size) m ≡ encode_commands s cs ++ rest
    → input.data_at ≤ cmd + size
    → cmd + size + length (encode_commands s cs) ≤ input.data_at + input.data_length
    → heap ≡ costs cs + left
    → load_commands m input s (length cs) cmd size mat heap ≡ done (meanings cs mat, left)
unfolding load_commands macho_offset encode_commands encode_command word u32 meanings costs
load_commands-reads m input s [] rest cmd size mat heap left h e i k a =
    ap (λ n. done (mat, n)) (omega (arith, a))
load_commands-reads m input s (c ∷ cs) rest cmd size mat heap left h e i k a =
    let l = length-encode_commands s c cs in
    let at = cmd + size in
    let behind = behind-first m at s c cs rest e in
    rw
      (
        macho_offset,
        macho_read-in input at 8 i (omega (arith, l, k, command_size-ge c)),
        field-word (at + 4) m s (command_size c) _ h.0.1 (drop-from at 4 m _ e),
        macho_read-in input at (command_size c) i (omega (arith, l, k)),
        field-word at m s (command_type c) _ (command_type-lt c h.0) e,
        handle_command-reads m input s c (encode_commands s cs ++ rest) at mat heap
            (costs cs + left) h.0
            (e ∙ append_assoc (encode_command s c) (encode_commands s cs) rest) i
            (omega (arith, l, k)) (omega (arith, a)),
      )
      (load_commands-reads m input s cs rest at (command_size c) (meaning c mat) (costs cs + left)
        left h.1 behind (omega (arith, i)) (omega (arith, l, k)) refl)

-- The header's part of an encoding.
length-encode_image :
    (i : Image)
    → header_size_of i.wide + length (encode_commands i.swapped i.commands)
      ≤ length (encode_image i)
unfolding encode_image word u32 reserved
length-encode_image i =
    elim i.wide
      as (λ w.
        header_size_of w + length (encode_commands i.swapped i.commands)
        ≤ length (encode_image (record i { wide = w }))) [
          | true ↦ omega (arith, length-append (encode_commands i.swapped i.commands) i.contents)
          | false ↦ omega (arith, length-append (encode_commands i.swapped i.commands) i.contents)
        ]

drop-header :
    (i : Image) (rest : Bytes)
    → drop (header_size_of i.wide) (encode_image i ++ rest)
      ≡ (encode_commands i.swapped i.commands ++ i.contents) ++ rest
unfolding encode_image word u32 reserved
drop-header i rest =
    elim i.wide
      as (λ w.
        drop (header_size_of w) (encode_image (record i { wide = w }) ++ rest)
        ≡ (encode_commands i.swapped i.commands ++ i.contents) ++ rest) [
          | true ↦ refl
          | false ↦ refl
        ]

parse_thin-reads :
    (m : Bytes) (input : MachoInput) (i : Image) (rest : Bytes) (archs : List MachoArch)
    (heap left : ℕ)
    → IsImage i
    → drop input.data_at m ≡ encode_image i ++ rest
    → length (encode_image i) ≤ input.data_length
    → heap ≡ image_cost i + left
    → parse_thin m input i.swapped (header_size_of i.wide) (archs, heap)
      ≡ done (image_meaning i ∷ archs, left)
unfolding parse_thin encode_image word u32 image_meaning image_cost
parse_thin-reads m input i rest archs heap left h e k a =
    let at = input.data_at in
    let room = length-encode_image i in
    rw
      (
        macho_read-in input at (header_size_of i.wide) (omega arith) (omega (arith, room, k)),
        malloc-suc heap (costs i.commands + left) (omega (arith, a)),
        field-word (at + 4) m i.swapped i.cputype _ h.0 (drop-from at 4 m _ e),
        field-word (at + 16) m i.swapped (length i.commands) _ h.1 (drop-from at 16 m _ e),
        load_commands-reads m input i.swapped i.commands (i.contents ++ rest) at
            (header_size_of i.wide) (record zero_arch { mat_arch = i.cputype })
            (costs i.commands + left) left h.2
            (drop-from at (header_size_of i.wide) m _ e
              ∙ (drop-header i rest
                  ∙ append_assoc (encode_commands i.swapped i.commands) i.contents rest))
            (omega arith) (omega (arith, room, k)) refl,
      )
      refl

parse_magic-thin :
    (parse : MachoInput → Archs → Result Archs) (s w : Bool) (m : Bytes) (input : MachoInput)
    (mt : Archs)
    → parse_magic parse (swap32 s (magic_of w)) m input mt
      ≡ parse_thin m input s (header_size_of w) mt
unfolding parse_magic swap32 macho_swap32
parse_magic-thin parse true true m input mt = refl
parse_magic-thin parse true false m input mt = refl
parse_magic-thin parse false true m input mt = refl
parse_magic-thin parse false false m input mt = refl

magic_of-lt : (w : Bool) → magic_of w < 2 ^ 32
magic_of-lt true = omega arith
magic_of-lt false = omega arith

-- Wherever a file of one architecture stands in the memory, in either byte order and width, the
-- parser with enough memory puts in front of the list what the file's commands say, if each of its
-- numbers and sizes is of 32 bits and no name has a null character.
pub parse_macho-image :
    (fuel : ℕ) (m : Bytes) (input : MachoInput) (i : Image) (rest : Bytes) (archs : List MachoArch)
    (heap left : ℕ)
    → IsImage i
    → drop input.data_at m ≡ encode_image i ++ rest
    → length (encode_image i) ≤ input.data_length
    → heap ≡ image_cost i + left
    → parse_macho (suc fuel) m input (archs, heap) ≡ done (image_meaning i ∷ archs, left)
unfolding parse_macho encode_image
parse_macho-image fuel m input i rest archs heap left h e k a =
    let at = input.data_at in
    rw
      (
        macho_read-in input at 4 (omega arith) (omega (arith, length-encode_image i, k)),
        word_at-word at m i.swapped (magic_of i.wide) _ (magic_of-lt i.wide) e,
        parse_magic-thin (parse_macho fuel m) i.swapped i.wide m input (archs, heap),
      )
      (parse_thin-reads m input i rest archs heap left h e k a)
