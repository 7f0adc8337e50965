-- ===== src/Filemap/Termination.antt =====
-- The depth of the calls of `LoadNode` in filemap.c, bounded by the length of the buffer.
use macports.Prelude.{
  length-drop-le, ℕ, zero, suc, ◌≢◌, ◌<◌, ◌≤◌, [], ◌∷◌, Bytes, length, drop, ◌-◌, Option, none,
  some, arith, ◌==◌, Bool, true, false,
}
use macports.Filemap.Types.{SHeader}
use macports.Filemap.Save.{kind_leaf}
use macports.Prelude.Text.{c_string}
use macports.Filemap.Load.{
  Loaded, ok, err, overrun, out_of_fuel, ◌>>=◌, Cursor, take_string, take_kind, read_count,
  take_count, load_subnodes, load_leaf, load_directory, load_node, torn, load_buffer,
}

-- A result other than `out_of_fuel`; a successful one leaves at most `n` bytes of the buffer.
abbrev Leaves {ℓ} : {A : Type ℓ} → ℕ → Loaded (A × Cursor) → Type 0
Leaves n (ok (x, c)) = length c.buffer ≤ n
Leaves n (err e b) = Unit
Leaves n overrun = Unit
Leaves n out_of_fuel = ⊥

Leaves-bind {ℓ κ} :
    {A : Type ℓ} {B : Type κ} (n m : ℕ) (r : Loaded (A × Cursor))
    (f : A × Cursor → Loaded (B × Cursor))
    → Leaves m r
    → ((x : A) (c : Cursor) → length c.buffer ≤ m → Leaves n (f (x, c)))
    → Leaves n (r >>= f)
Leaves-bind n m (ok (x, c)) f h k = k x c h
Leaves-bind n m (err e b) f h k = tt
Leaves-bind n m overrun f h k = tt
Leaves-bind n m out_of_fuel f h k = h

Leaves-torn {ℓ} : {A : Type ℓ} (n : ℕ) (r : Loaded (A × Cursor)) → Leaves n r → Leaves n (torn r)
Leaves-torn n (ok x) h = h
Leaves-torn n (err e b) h = tt
Leaves-torn n overrun h = tt
Leaves-torn n out_of_fuel h = h

abbrev AfterLe : ℕ → Option (Bytes × Bytes) → Type 0
AfterLe n none = Unit
AfterLe n (some (s, after)) = length after ≤ n

c_string-AfterLe : (b : Bytes) → AfterLe (length b) (c_string b)
unfolding c_string
c_string-AfterLe [] = tt
c_string-AfterLe (c ∷ b) = ground (arith, c_string-AfterLe b)

take_string-Leaves : (n : ℕ) (cur : Cursor) → length cur.buffer ≤ n → Leaves n (take_string cur)
unfolding take_string
take_string-Leaves n cur h = ground (arith, c_string-AfterLe cur.buffer)

take_kind-Leaves : (n : ℕ) (cur : Cursor) → length cur.buffer ≤ suc n → Leaves n (take_kind cur)
unfolding take_kind
take_kind-Leaves n cur h = ground arith

abbrev CountLe : ℕ → Loaded (ℕ × Bytes) → Type 0
CountLe n (ok (x, b)) = length b ≤ n
CountLe n overrun = Unit
CountLe n _ = ⊥

read_count-CountLe : (b : Bytes) → CountLe (length b) (read_count b)
unfolding read_count
read_count-CountLe [] = tt
read_count-CountLe (a ∷ []) = tt
read_count-CountLe (a ∷ b ∷ []) = tt
read_count-CountLe (a ∷ b ∷ c ∷ []) = tt
read_count-CountLe (a ∷ b ∷ c ∷ d ∷ r) = omega arith

take_count-Leaves : (n : ℕ) (cur : Cursor) → length cur.buffer ≤ n → Leaves n (take_count cur)
unfolding take_count
take_count-Leaves n cur h = ground (arith, read_count-CountLe cur.buffer)

load_subnodes-Leaves :
    (load : Cursor → Loaded (SHeader × Cursor)) (n : ℕ)
    → ((m : ℕ) (cur : Cursor) → length cur.buffer ≤ m → m ≤ n → Leaves m (load cur))
    → (count m : ℕ) (cur : Cursor) → length cur.buffer ≤ m
    → m ≤ n
    → Leaves m (load_subnodes load count cur)
unfolding load_subnodes
load_subnodes-Leaves load n ih zero m cur h l = h
load_subnodes-Leaves load n ih (suc count) m cur h l =
    Leaves-bind m m (load cur) _ (ih m cur h l) λ x c hc.
      Leaves-bind m m (load_subnodes load count c) _ (load_subnodes-Leaves load n ih count m c hc l)
        (λ y d hd. hd)

load_leaf-Leaves :
    (n : ℕ) (key : Bytes) (cur : Cursor) → length cur.buffer ≤ n → Leaves n (load_leaf key cur)
unfolding load_leaf
load_leaf-Leaves n key cur h =
    Leaves-bind n n (take_string cur) _ (take_string-Leaves n cur h) (λ x c hc. hc)

load_directory-Leaves :
    (load : Cursor → Loaded (SHeader × Cursor)) (n : ℕ) (key : Bytes) (cur : Cursor)
    → ((m : ℕ) (c : Cursor) → length c.buffer ≤ m → m ≤ n → Leaves m (load c))
    → (m : ℕ) → length cur.buffer ≤ m
    → m ≤ n
    → Leaves m (load_directory load key cur)
unfolding load_directory
load_directory-Leaves load n key cur ih m h l =
    Leaves-bind m m (take_count cur) _ (take_count-Leaves m cur h) λ x c hc.
      Leaves-bind m m (torn (load_subnodes load x c)) _
        (Leaves-torn m (load_subnodes load x c) (load_subnodes-Leaves load n ih x m c hc l))
        (λ y d hd. hd)

Leaves-mono {ℓ} : {A : Type ℓ} (n m : ℕ) (r : Loaded (A × Cursor)) → m ≤ n → Leaves m r → Leaves n r
Leaves-mono n m (ok (x, c)) l h = omega arith
Leaves-mono n m (err e b) l h = tt
Leaves-mono n m overrun l h = tt
Leaves-mono n m out_of_fuel l h = h

abbrev Fails {ℓ} : {A : Type ℓ} → Loaded A → Type 0
Fails (ok x) = ⊥
Fails (err e b) = Unit
Fails overrun = Unit
Fails out_of_fuel = ⊥

take_kind-Fails : (cur : Cursor) → length cur.buffer ≤ 0 → Fails (take_kind cur)
unfolding take_kind
take_kind-Fails cur h = ground arith

Fails-bind {ℓ κ} :
    {A : Type ℓ} {B : Type κ} (n : ℕ) (r : Loaded A) (f : A → Loaded (B × Cursor))
    → Fails r
    → Leaves n (r >>= f)
Fails-bind n (ok x) f h = absurd h
Fails-bind n (err e b) f h = tt
Fails-bind n overrun f h = tt
Fails-bind n out_of_fuel f h = h

branches-Leaves :
    (m : ℕ) (leaf_branch : Bool) (a b : Loaded (SHeader × Cursor))
    → Leaves m a
    → Leaves m b
    → Leaves m (elim leaf_branch [ true ↦ a | false ↦ b ])
branches-Leaves m true a b h k = h
branches-Leaves m false a b h k = k

load_node-Leaves :
    (fuel m : ℕ) (cur : Cursor) → length cur.buffer ≤ m → m < fuel → Leaves m (load_node fuel cur)
unfolding load_node
load_node-Leaves zero m cur h f = elim f [ ]
load_node-Leaves (suc fuel) zero cur h f = Fails-bind 0 (take_kind cur) _ (take_kind-Fails cur h)
load_node-Leaves (suc fuel) (suc m) cur h f =
    Leaves-bind (suc m) m (take_kind cur) _ (take_kind-Leaves m cur h) λ kind c hc.
      Leaves-bind (suc m) m (take_string c) _ (take_string-Leaves m c hc) λ key d hd.
        branches-Leaves (suc m) (kind == kind_leaf) (load_leaf key d)
          (load_directory (load_node fuel) key d) (load_leaf-Leaves (suc m) key d (omega arith))
          (Leaves-mono (suc m) m (load_directory (load_node fuel) key d) (omega arith) (
            load_directory-Leaves (load_node fuel) m key d
              (λ m' c' h' l'. load_node-Leaves fuel m' c' h' (omega arith)) m hd (omega arith)))

Leaves-root :
    (m : ℕ) (r : Loaded (SHeader × Cursor))
    → Leaves m r
    → (r >>= λ (root, end). ok root) ≢ out_of_fuel
Leaves-root m (ok x) h = λ e. cc
Leaves-root m (err c b) h = λ e. cc
Leaves-root m overrun h = λ e. cc
Leaves-root m out_of_fuel h = absurd h

-- `Load` ends on every file, damaged ones included: the length of the file is enough fuel.
pub load_buffer-terminates : (contents : Bytes) → load_buffer contents ≢ out_of_fuel
unfolding load_buffer
load_buffer-terminates contents =
    let start : Cursor = record { buffer = drop 28 contents; bytes_left = length contents - 28 } in
    ground (
      arith,
      Leaves-root (length contents) (load_node (suc (length contents)) start) (
          load_node-Leaves (suc (length contents)) (length contents) start
            (length-drop-le 28 contents) (omega arith)),
    )
