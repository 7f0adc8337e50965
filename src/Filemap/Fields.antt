-- ===== src/Filemap/Fields.antt =====
-- What `LoadNode` of filemap.c reads of one string, one kind or one count that `SaveNode` wrote.
use macports.Prelude.{ℕ, ◌+◌, ◌-◌, ◌^◌, ◌<◌, ◌≤◌, ◌≡◌, [], ◌∷◌, ◌++◌, Bytes, All, length, arith}
use macports.Filemap.Types.{name_max}
use macports.Filemap.Keys.{IsKeyChar}
use macports.Filemap.Sorted.{IsByte}
use macports.Filemap.Save.{count_bytes, kind_node, kind_leaf}
use macports.Prelude.Text.{c_string-append, NoNull}
use macports.Filemap.Load.{Loaded, ok, Cursor, take_string, take_kind, read_count, take_count}

IsByte-NoNull : (k : Bytes) → All IsByte k → NoNull k
IsByte-NoNull [] h = tt
IsByte-NoNull (c ∷ k) h = (omega (arith, h.0), IsByte-NoNull k h.1)

-- A string that fits is read as it was written.
pub take_string-append :
    (k rest : Bytes) (left : ℕ)
    → All IsByte k
    → length k ≤ name_max
    → length k ≤ left
    → left < 2 ^ 32
    → take_string (record { buffer = k ++ 0 ∷ rest; bytes_left = left })
      ≡ ok (k, record { buffer = rest; bytes_left = left - length k })
unfolding take_string
take_string-append k rest left h f l b = ground (arith, c_string-append k rest (IsByte-NoNull k h))

pub read-count_bytes :
    (n : ℕ) (rest : Bytes) → n < 2 ^ 32 → read_count (count_bytes n ++ rest) ≡ ok (n, rest)
unfolding read_count
read-count_bytes n rest h = ground arith

pub take_count-append :
    (n : ℕ) (rest : Bytes) (left : ℕ)
    → n < 2 ^ 32
    → 4 ≤ left
    → take_count (record { buffer = count_bytes n ++ rest; bytes_left = left })
      ≡ ok (n, record { buffer = rest; bytes_left = left - 4 })
unfolding take_count
take_count-append n rest left h l = ground (arith, read-count_bytes n rest h)

pub length-count_bytes : (n : ℕ) (r : Bytes) → length (count_bytes n ++ r) ≡ 4 + length r
length-count_bytes n r = omega arith

pub take_kind-leaf :
    (rest : Bytes) (left : ℕ)
    → 0 < left
    → take_kind (record { buffer = kind_leaf ∷ rest; bytes_left = left })
      ≡ ok (kind_leaf, record { buffer = rest; bytes_left = left - 1 })
unfolding take_kind
take_kind-leaf rest left h = ground arith

pub take_kind-node :
    (rest : Bytes) (left : ℕ)
    → 0 < left
    → take_kind (record { buffer = kind_node ∷ rest; bytes_left = left })
      ≡ ok (kind_node, record { buffer = rest; bytes_left = left - 1 })
unfolding take_kind
take_kind-node rest left h = ground arith

pub IsKey-bytes : (k : Bytes) → All IsKeyChar k → All IsByte k
IsKey-bytes [] h = tt
IsKey-bytes (c ∷ k) h = ((h.0.0.0, omega arith), IsKey-bytes k h.1)

-- The tree is read back, and at least as many bytes are left as there are.
abbrev pub Reads {ℓ} : {A : Type ℓ} → A → Bytes → Loaded (A × Cursor) → Type ℓ
Reads x rest r =
    (left : ℕ) × (r ≡ ok (x, record { buffer = rest; bytes_left = left }))
    × (length rest ≤ left)
    × (left < 2 ^ 32)
