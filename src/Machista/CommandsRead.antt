-- ===== src/Machista/CommandsRead.antt =====
-- The functions for single load commands in libmachista.c read what Machista/Encode writes.
use macports.Prelude.{
  ℕ, zero, suc, ◌+◌, ◌-◌, ◌≤◌, ◌≡◌, refl, ap, ◌∙◌, ◌∷◌, ◌++◌, Bytes, length, drop, Bool, false,
  arith, append_assoc, length-append,
}
use macports.Prelude.Words.{u32}
use macports.Prelude.Text.{NoNull}
use macports.Machista.Types.{MachoInput, MachoArch, done, string}
use macports.Machista.Reading.{macho_offset, malloc, strlcpy}
use macports.Machista.Commands.{
  name_pointer, rpath_command, id_command, load_command, handle_command,
}
use macports.Machista.Encode.{
  word, text, text_size, Dylib, LoadCommand, rpath, id_dylib, load_dylib, other, DylibKind, plain,
  weak, reexport, kind_type, command_type, command_size, dylib_body, body, encode_command, meaning,
  cost, IsCommand, IsDylib,
}
use macports.Machista.Fields.{drop-from, field-word, strlcpy-text, macho_read-in}

pub malloc-suc : (heap rest : ℕ) → heap ≡ 1 + rest → malloc heap ≡ done rest
malloc-suc zero rest e = absurd (omega arith)
malloc-suc (suc n) rest e = ap done (omega arith)

length-body : (s : Bool) (c : LoadCommand) → 8 + length (body s c) ≡ command_size c
unfolding body command_size dylib_body
length-body s (rpath p pad) = omega (arith, length-append p (0 ∷ pad))
length-body s (id_dylib d) = omega (arith, length-append d.name (0 ∷ d.padding))
length-body s (load_dylib k d) = omega (arith, length-append d.name (0 ∷ d.padding))
length-body s (other t b) = omega arith

pub command_size-ge : (c : LoadCommand) → 8 ≤ command_size c
command_size-ge c = omega (arith, length-body false c)

pub length-encode_command :
    (s : Bool) (c : LoadCommand) → length (encode_command s c) ≡ command_size c
unfolding encode_command word u32
length-encode_command s c = omega (arith, length-body s c)

name_pointer-in :
    (input : MachoInput) (size at cmdsize : ℕ)
    → input.data_at ≤ at
    → size ≤ cmdsize
    → at + cmdsize ≤ input.data_at + input.data_length
    → name_pointer input size at cmdsize ≡ done (at + size)
unfolding name_pointer macho_offset
name_pointer-in input size at cmdsize h k l =
    ground (arith, macho_read-in input (at + size) (cmdsize - size) (omega arith) (omega arith))

-- A command's string behind its structure of `size` bytes is copied.
name-copied :
    (m : Bytes) (at size : ℕ) (name padding rest x : Bytes)
    → NoNull name
    → drop at m ≡ x
    → drop size x ≡ text name padding ++ rest
    → strlcpy m (at + size) (text_size name padding) ≡ done (string name)
name-copied m at size name padding rest x h e f =
    strlcpy-text (at + size) m name padding rest h
      (drop-from at size m x e ∙ (f ∙ append_assoc name (0 ∷ padding) rest))

minus : (n k : ℕ) → n + k - n ≡ k
minus n k = omega arith

rpath_command-reads :
    (m : Bytes) (input : MachoInput) (s : Bool) (path padding rest : Bytes) (at : ℕ)
    (mat : MachoArch) (heap left : ℕ)
    → NoNull path
    → drop at m ≡ encode_command s (rpath path padding) ++ rest
    → input.data_at ≤ at
    → at + command_size (rpath path padding) ≤ input.data_at + input.data_length
    → heap ≡ 1 + left
    → rpath_command m input at (command_size (rpath path padding)) mat heap
      ≡ done (record mat { mat_rpath = string path }, left)
unfolding rpath_command encode_command body command_size word u32
rpath_command-reads m input s path padding rest at mat heap left h e i k a =
    rw
      (
        name_pointer-in input 12 at (12 + text_size path padding) i (omega arith) k,
        malloc-suc heap left a,
        minus 12 (text_size path padding),
        name-copied m at 12 path padding rest _ h e refl,
      )
      refl

id_command-reads :
    (m : Bytes) (input : MachoInput) (s : Bool) (d : Dylib) (rest : Bytes) (at : ℕ)
    (mat : MachoArch) (heap left : ℕ)
    → IsDylib d
    → drop at m ≡ encode_command s (id_dylib d) ++ rest
    → input.data_at ≤ at
    → at + command_size (id_dylib d) ≤ input.data_at + input.data_length
    → heap ≡ 1 + left
    → id_command m input s at (command_size (id_dylib d)) mat heap
      ≡ done (meaning (id_dylib d) mat, left)
unfolding id_command encode_command body dylib_body command_size word u32 meaning
id_command-reads m input s d rest at mat heap left h e i k a =
    rw
      (
        name_pointer-in input 24 at (24 + text_size d.name d.padding) i (omega arith) k,
        malloc-suc heap left a,
        minus 24 (text_size d.name d.padding),
        name-copied m at 24 d.name d.padding rest _ h.0 e refl,
        field-word (at + 16) m s d.current_version _ h.2 (drop-from at 16 m _ e),
        field-word (at + 20) m s d.compatibility_version _ h.3 (drop-from at 20 m _ e),
      )
      refl

load_command-reads :
    (m : Bytes) (input : MachoInput) (s : Bool) (c : DylibKind) (d : Dylib) (rest : Bytes) (at : ℕ)
    (mat : MachoArch) (heap left : ℕ)
    → IsDylib d
    → drop at m ≡ encode_command s (load_dylib c d) ++ rest
    → input.data_at ≤ at
    → at + command_size (load_dylib c d) ≤ input.data_at + input.data_length
    → heap ≡ 2 + left
    → load_command m input s (kind_type c) at (command_size (load_dylib c d)) mat heap
      ≡ done (meaning (load_dylib c d) mat, left)
unfolding load_command encode_command body dylib_body command_size word u32 meaning
load_command-reads m input s c d rest at mat heap left h e i k a =
    rw
      (
        name_pointer-in input 24 at (24 + text_size d.name d.padding) i (omega arith) k,
        malloc-suc heap (1 + left) (omega (arith, a)),
        malloc-suc (1 + left) left refl,
        minus 24 (text_size d.name d.padding),
        name-copied m at 24 d.name d.padding rest _ h.0 e refl,
        field-word (at + 16) m s d.current_version _ h.2 (drop-from at 16 m _ e),
        field-word (at + 20) m s d.compatibility_version _ h.3 (drop-from at 20 m _ e),
      )
      refl

pub handle_command-reads :
    (m : Bytes) (input : MachoInput) (s : Bool) (c : LoadCommand) (rest : Bytes) (at : ℕ)
    (mat : MachoArch) (heap left : ℕ)
    → IsCommand c
    → drop at m ≡ encode_command s c ++ rest
    → input.data_at ≤ at
    → at + command_size c ≤ input.data_at + input.data_length
    → heap ≡ cost c + left
    → handle_command m input s (command_type c) at (command_size c) mat heap
      ≡ done (meaning c mat, left)
unfolding handle_command cost meaning
handle_command-reads m input s (rpath p pad) rest at mat heap left h e i k a =
    rpath_command-reads m input s p pad rest at mat heap left h.0 e i k a
handle_command-reads m input s (id_dylib d) rest at mat heap left h e i k a =
    id_command-reads m input s d rest at mat heap left h.0 e i k a
handle_command-reads m input s (load_dylib plain d) rest at mat heap left h e i k a =
    load_command-reads m input s plain d rest at mat heap left h.0 e i k a
handle_command-reads m input s (load_dylib weak d) rest at mat heap left h e i k a =
    load_command-reads m input s weak d rest at mat heap left h.0 e i k a
handle_command-reads m input s (load_dylib reexport d) rest at mat heap left h e i k a =
    load_command-reads m input s reexport d rest at mat heap left h.0 e i k a
handle_command-reads m input s (other t b) rest at mat heap left h e i k a = ground (arith, h, a)
