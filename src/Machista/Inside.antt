-- ===== src/Machista/Inside.antt =====
-- The reading functions of libmachista.c within the mapping of a file.
use macports.Prelude.{
  ℕ, zero, suc, ◌+◌, ◌-◌, ◌≤◌, ◌≡◌, refl, [], ◌∷◌, Bytes, length, drop, Bool, Option, none, some,
  arith,
}
use macports.Prelude.Words.{read_u32}
use macports.Prelude.Text.{c_string}
use macports.Machista.Types.{
  MachoInput, Result, done, failed, outside, null_dereference, out_of_fuel, ◌>>=◌,
}
use macports.Machista.Reading.{macho_read, macho_offset, or_erange, word_at, field, malloc, strlcpy}
use macports.Machista.Commands.{name_pointer}

-- No read outside the mapping, and `N` if there is a read through a null pointer.
abbrev pub IsInside {ℓ} : {A : Type ℓ} → Type 0 → Result A → Type 0
IsInside N outside = ⊥
IsInside N null_dereference = N
IsInside N _ = Unit

module _ {ℓ κ} {A : Type ℓ} {B : Type κ} where
  pub bind-IsInside :
      (N : Type 0) (r : Result A) (f : A → Result B)
      → IsInside N r
      → ((a : A) → r ≡ done a → IsInside N (f a))
      → IsInside N (r >>= f)
  bind-IsInside N (done a) f h k = k a refl
  bind-IsInside N (failed e) f h k = tt
  bind-IsInside N outside f h k = h
  bind-IsInside N null_dereference f h k = h
  bind-IsInside N out_of_fuel f h k = tt

-- Every address up to `limit` is one of the memory, with the end of a string at it or behind it.
abbrev pub Mapped : Bytes → ℕ → Type 0
Mapped m limit =
    (limit ≤ length m)
    × ((a : ℕ) → a ≤ limit → (x : Bytes × Bytes) × (c_string (drop a m) ≡ some x))

-- The parts of an input that is within the mapping.
abbrev pub Fits : Bytes → MachoInput → Type 0
Fits m input = Mapped m (input.data_at + input.data_length)

read_u32-some : (b : Bytes) → 4 ≤ length b → (x : ℕ × Bytes) × (read_u32 b ≡ some x)
unfolding read_u32
read_u32-some [] h = absurd (omega arith)
read_u32-some (a ∷ []) h = absurd (omega (arith, h))
read_u32-some (a ∷ b ∷ []) h = absurd (omega (arith, h))
read_u32-some (a ∷ b ∷ c ∷ []) h = absurd (omega (arith, h))
read_u32-some (a ∷ b ∷ c ∷ d ∷ r) h = (_, refl)

length-drop : (a : ℕ) (m : Bytes) → a ≤ length m → a + length (drop a m) ≡ length m
length-drop zero m h = omega arith
length-drop (suc a) [] h = absurd (omega (arith, h))
length-drop (suc a) (c ∷ m) h = omega (arith, length-drop a m (omega (arith, h)))

word_at-done : (m : Bytes) (a : ℕ) → a + 4 ≤ length m → (n : ℕ) × (word_at m a ≡ done n)
unfolding word_at
word_at-done m a h =
    let (x, e) = read_u32-some (drop a m) (omega (arith, length-drop a m (omega arith), h)) in
    (x.0, rw (word_at, e) refl)

pub word_at-IsInside :
    (N : Type 0) (m : Bytes) (a : ℕ) → a + 4 ≤ length m → IsInside N (word_at m a)
word_at-IsInside N m a h = rw ((word_at-done m a h).1) tt

pub field-IsInside :
    (N : Type 0) (m : Bytes) (s : Bool) (a : ℕ) → a + 4 ≤ length m → IsInside N (field m s a)
unfolding field
field-IsInside N m s a h = rw (field, (word_at-done m a h).1) tt

pub or_erange-IsInside : (N : Type 0) (o : Option ℕ) → IsInside N (or_erange o)
or_erange-IsInside N none = tt
or_erange-IsInside N (some a) = tt

pub malloc-IsInside : (N : Type 0) (heap : ℕ) → IsInside N (malloc heap)
malloc-IsInside N zero = tt
malloc-IsInside N (suc heap) = tt

-- What a read that succeeds tells.
pub or_erange-read :
    (input : MachoInput) (a len b : ℕ)
    → input.data_at ≤ a
    → or_erange (macho_read input a len) ≡ done b
    → (b ≡ a) × (a + len ≤ input.data_at + input.data_length)
unfolding macho_read
or_erange-read input a len b h e = (ground (arith, e), ground (arith, e, h))

pub strlcpy-IsInside :
    (N : Type 0) (m : Bytes) (limit a size : ℕ)
    → Mapped m limit
    → a ≤ limit
    → IsInside N (strlcpy m a size)
unfolding strlcpy
strlcpy-IsInside N m limit a size h k = let (x, e) = h.1 a k in rw (strlcpy, e) (ground arith)

pub name_pointer-IsInside :
    (N : Type 0) (input : MachoInput) (size cmd cmdsize : ℕ)
    → IsInside N (name_pointer input size cmd cmdsize)
unfolding name_pointer
name_pointer-IsInside N input size cmd cmdsize =
    ground (arith, or_erange-IsInside N (macho_offset input cmd size (cmdsize - size)))

pub name_pointer-bounds :
    (input : MachoInput) (size cmd cmdsize ptr : ℕ)
    → input.data_at ≤ cmd
    → name_pointer input size cmd cmdsize ≡ done ptr
    → (cmd + size ≤ input.data_at + input.data_length) × (ptr ≤ input.data_at + input.data_length)
unfolding name_pointer macho_offset
name_pointer-bounds input size cmd cmdsize ptr h e =
    let r =
      or_erange-read input (cmd + size) (cmdsize - size) ptr (omega (arith, h))
        (ground (arith, e)) in
    (omega (arith, r), omega (arith, r))
