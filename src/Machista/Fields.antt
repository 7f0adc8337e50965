-- ===== src/Machista/Fields.antt =====
-- What the reading functions of libmachista.c find at an address, by what the memory holds from there on.
use macports.Prelude.{
  ℕ, zero, suc, ◌+◌, ◌-◌, ◌^◌, ◌≤◌, ◌<◌, ◌≡◌, refl, ap, sym, ◌∙◌, [], ◌∷◌, ◌++◌, Bytes, length,
  drop, Bool, true, false, some, arith,
}
use macports.Prelude.Words.{read_u32, read-u32, take_all, drop-append}
use macports.Prelude.Text.{c_string, c_string-append, NoNull}
use macports.Machista.Types.{MachoInput, done, string}
use macports.Machista.Reading.{macho_read, word_at, macho_swap32, swap32, field, strlcpy}
use macports.Machista.Encode.{word, text, text_size}

swap-swap : (n : ℕ) → n < 2 ^ 32 → macho_swap32 (macho_swap32 n) ≡ n
unfolding macho_swap32
swap-swap n h = omega arith

macho_swap32-lt : (n : ℕ) → macho_swap32 n < 2 ^ 32
unfolding macho_swap32
macho_swap32-lt n = omega arith

swap32-swap32 : (s : Bool) (n : ℕ) → n < 2 ^ 32 → swap32 s (swap32 s n) ≡ n
unfolding swap32
swap32-swap32 true n h = swap-swap n h
swap32-swap32 false n h = refl

swap32-lt : (s : Bool) (n : ℕ) → n < 2 ^ 32 → swap32 s n < 2 ^ 32
unfolding swap32
swap32-lt true n h = macho_swap32-lt n
swap32-lt false n h = h

zero_add : (b : ℕ) → 0 + b ≡ b
zero_add b = omega arith

suc_add : (a b : ℕ) → suc a + b ≡ suc (a + b)
suc_add a b = omega arith

drop-nil : (a : ℕ) → drop {A = ℕ} a [] ≡ []
drop-nil zero = refl
drop-nil (suc a) = refl

drop-add : (a b : ℕ) (m : Bytes) → drop (a + b) m ≡ drop b (drop a m)
drop-add zero b m = ap (λ n. drop n m) (zero_add b)
drop-add (suc a) b [] = drop-nil (suc a + b) ∙ sym (drop-nil b)
drop-add (suc a) b (c ∷ m) = ap (λ n. drop n (c ∷ m)) (suc_add a b) ∙ drop-add a b m

pub drop-from : (a k : ℕ) (m x : Bytes) → drop a m ≡ x → drop (a + k) m ≡ drop k x
drop-from a k m x e = drop-add a k m ∙ ap (drop k) e

-- The memory behind a string that stands at an address.
pub drop-behind : (a : ℕ) (m x r : Bytes) → drop a m ≡ x ++ r → drop (a + length x) m ≡ r
drop-behind a m x r e = rw (drop-add a (length x) m, e) (drop-append x r)

read_u32-word :
    (a : ℕ) (m : Bytes) (s : Bool) (n : ℕ) (r : Bytes)
    → n < 2 ^ 32
    → drop a m ≡ word s n ++ r
    → read_u32 (drop a m) ≡ some (swap32 s n, r)
unfolding word
read_u32-word a m s n r h e = ap read_u32 e ∙ read-u32 (swap32 s n) r (swap32-lt s n h)

pub word_at-word :
    (a : ℕ) (m : Bytes) (s : Bool) (n : ℕ) (r : Bytes)
    → n < 2 ^ 32
    → drop a m ≡ word s n ++ r
    → word_at m a ≡ done (swap32 s n)
unfolding word_at
word_at-word a m s n r h e = rw (word_at, read_u32-word a m s n r h e) refl

pub field-word :
    (a : ℕ) (m : Bytes) (s : Bool) (n : ℕ) (r : Bytes)
    → n < 2 ^ 32
    → drop a m ≡ word s n ++ r
    → field m s a ≡ done n
unfolding field
field-word a m s n r h e = rw (field, word_at-word a m s n r h e) (ap done (swap32-swap32 s n h))

-- A string with its padding is copied as it is.
pub strlcpy-text :
    (a : ℕ) (m name padding r : Bytes)
    → NoNull name
    → drop a m ≡ text name (padding ++ r)
    → strlcpy m a (text_size name padding) ≡ done (string name)
unfolding strlcpy
strlcpy-text a m name padding r h e = ground (
  arith,
  ap c_string e ∙ c_string-append name (padding ++ r) h,
  take_all (text_size name padding - 1) name (omega arith),
)

-- A range within the input.
pub macho_read-in :
    (input : MachoInput) (a len : ℕ)
    → input.data_at ≤ a
    → a + len ≤ input.data_at + input.data_length
    → macho_read input a len ≡ some a
unfolding macho_read
macho_read-in input a len h k = ground (arith, h, k)
