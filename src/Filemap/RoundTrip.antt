-- ===== src/Filemap/RoundTrip.antt =====
-- `LoadNode` of filemap.c on the bytes of a tree.
use macports.Prelude.{
  ℕ, zero, suc, ◌+◌, ◌-◌, ◌^◌, ◌<◌, ◌≤◌, refl, ◌∷◌, ◌++◌, Bytes, All, length, length-append, arith,
}
use macports.Filemap.Types.{SHeader, leaf, node, Subnodes, nil, cons, name_max}
use macports.Filemap.Keys.{IsKey}
use macports.Filemap.Sorted.{IsWellFormed, AreWellFormed, IsValue, IsByte}
use macports.Filemap.Save.{count_bytes, count, kind_node, kind_leaf}
use macports.Filemap.Load.{Loaded, Cursor, load_subnodes, load_leaf, load_directory, load_node}
use macports.Filemap.Fields.{
  take_string-append, take_count-append, take_kind-leaf, take_kind-node, IsKey-bytes, Reads,
}

-- The bytes of a subtree, in front of what follows.
unfoldable mutual
  pub encode : SHeader → Bytes → Bytes
  encode (leaf key value) rest = kind_leaf ∷ (key ++ 0 ∷ (value ++ 0 ∷ rest))
  encode (node key subs) rest =
      kind_node ∷ (key ++ 0 ∷ (count_bytes (count subs) ++ encode_subnodes subs rest))

  pub encode_subnodes : Subnodes → Bytes → Bytes
  encode_subnodes nil rest = rest
  encode_subnodes (cons h t) rest = encode h (encode_subnodes t rest)

load_leaf-encode :
    (key value rest : Bytes) (left : ℕ)
    → IsValue value
    → length (value ++ 0 ∷ rest) ≤ left
    → left < 2 ^ 32
    → Reads
        (leaf key value)
        rest
        (load_leaf key (record { buffer = value ++ 0 ∷ rest; bytes_left = left }))
unfolding load_leaf
load_leaf-encode key value rest left v l b =
    let n = length-append value (0 ∷ rest) in
    (
      left - length value,
      rw (take_string-append value rest left v.bytes v.fits (omega (arith, n)) b),
      omega (arith, n),
      omega arith,
    )

load_node-leaf :
    (fuel : ℕ) (key value rest : Bytes) (left : ℕ)
    → IsKey key
    → IsValue value
    → length (encode (leaf key value) rest) ≤ left
    → left < 2 ^ 32
    → Reads
        (leaf key value)
        rest
        (load_node (suc fuel) (record { buffer = encode (leaf key value) rest; bytes_left = left }))
unfolding load_node encode
load_node-leaf fuel key value rest left k v l b =
    let n = length-append key (0 ∷ (value ++ 0 ∷ rest)) in
    rw
      (
        take_kind-leaf (key ++ 0 ∷ (value ++ 0 ∷ rest)) left (omega arith),
        take_string-append key (value ++ 0 ∷ rest) (left - 1) (IsKey-bytes key k.chars) k.fits
            (omega (arith, n)) (omega arith),
      )
      (load_leaf-encode key value rest (left - 1 - length key) v (omega (arith, n)) (omega arith))

mutual
  unfolding encode

  -- Each subnode takes at least one byte.
  encode-lt : (h : SHeader) (rest : Bytes) → length rest < length (encode h rest)
  encode-lt (leaf key value) rest =
      omega (arith, length-append key (0 ∷ (value ++ 0 ∷ rest)), length-append value (0 ∷ rest))
  encode-lt (node key subs) rest = omega (
    arith,
    length-append key (0 ∷ (count_bytes (count subs) ++ encode_subnodes subs rest)),
    encode_subnodes-le subs rest,
  )

  pub encode_subnodes-le :
      (s : Subnodes) (rest : Bytes) → count s + length rest ≤ length (encode_subnodes s rest)
  encode_subnodes-le nil rest = omega arith
  encode_subnodes-le (cons h t) rest =
      omega (arith, encode-lt h (encode_subnodes t rest), encode_subnodes-le t rest)

pub load_directory-encode :
    (load : Cursor → Loaded (SHeader × Cursor)) (key : Bytes) (subs : Subnodes) (rest : Bytes)
    (left : ℕ)
    → count subs < 2 ^ 32
    → 4 ≤ left
    → Reads subs rest (
        load_subnodes load
          (count subs)
          (record { buffer = encode_subnodes subs rest; bytes_left = left - 4 }))
    → Reads (node key subs) rest (
        load_directory load key (record {
          buffer = count_bytes (count subs) ++ encode_subnodes subs rest;
          bytes_left = left;
        }))
unfolding load_directory
load_directory-encode load key subs rest left c l (end, e, le, b) =
    (end, rw (take_count-append (count subs) (encode_subnodes subs rest) left c l, e), le, b)

load_subnodes-nil :
    (load : Cursor → Loaded (SHeader × Cursor)) (rest : Bytes) (left : ℕ)
    → length rest ≤ left
    → left < 2 ^ 32
    → Reads nil rest (load_subnodes load 0 (record { buffer = rest; bytes_left = left }))
unfolding load_subnodes
load_subnodes-nil load rest left l b = (left, refl, l, b)

load_subnodes-cons :
    (load : Cursor → Loaded (SHeader × Cursor)) (h : SHeader) (t : Subnodes) (rest : Bytes)
    (cur : Cursor)
    → Reads h (encode_subnodes t rest) (load cur)
    → ((left : ℕ)
        → length (encode_subnodes t rest) ≤ left
        → left < 2 ^ 32
        → Reads t rest (
            load_subnodes load
              (count t)
              (record { buffer = encode_subnodes t rest; bytes_left = left })))
    → Reads (cons h t) rest (load_subnodes load (suc (count t)) cur)
unfolding load_subnodes
load_subnodes-cons load h t rest cur (left, e, le, b) more =
    let (end, e', le', b') = more left le b in (end, rw (e, e'), le', b')

pub load_node-node :
    (fuel : ℕ) (key : Bytes) (subs : Subnodes) (rest : Bytes) (left : ℕ)
    → All IsByte key
    → length key ≤ name_max
    → length (encode (node key subs) rest) ≤ left
    → left < 2 ^ 32
    → Reads (node key subs) rest (
        load_directory (load_node fuel) key (record {
          buffer = count_bytes (count subs) ++ encode_subnodes subs rest;
          bytes_left = left - 1 - length key;
        }))
    → Reads
        (node key subs)
        rest
        (load_node (suc fuel) (record { buffer = encode (node key subs) rest; bytes_left = left }))
unfolding load_node encode
load_node-node fuel key subs rest left k fits l b r =
    let after = count_bytes (count subs) ++ encode_subnodes subs rest in
    let n = length-append key (0 ∷ after) in
    rw
      (
        take_kind-node (key ++ 0 ∷ after) left (omega arith),
        take_string-append key after (left - 1) k fits (omega (arith, n)) (omega arith),
      )
      r

mutual
  unfolding encode

  load_node-encode :
      (h : SHeader) (fuel : ℕ) (rest : Bytes) (left : ℕ)
      → IsWellFormed h
      → length (encode h rest) ≤ fuel
      → length (encode h rest) ≤ left
      → left < 2 ^ 32
      → Reads h rest (load_node fuel (record { buffer = encode h rest; bytes_left = left }))
  load_node-encode (leaf key value) zero rest left w f l b = absurd (omega arith)
  load_node-encode (leaf key value) (suc fuel) rest left w f l b =
      load_node-leaf fuel key value rest left w.0 w.1 l b
  load_node-encode (node key subs) zero rest left w f l b = absurd (omega arith)
  load_node-encode (node key subs) (suc fuel) rest left w f l b =
      let n = length-append key (0 ∷ (count_bytes (count subs) ++ encode_subnodes subs rest)) in
      let c = encode_subnodes-le subs rest in
      load_node-node fuel key subs rest left (IsKey-bytes key w.0.chars) w.0.fits l b (
        load_directory-encode (load_node fuel) key subs rest (left - 1 - length key)
          (omega (arith, n, c)) (omega (arith, n, c))
          (load_subnodes-encode subs fuel rest (left - 1 - length key - 4) w.1 (omega (arith, n, c))
            (omega (arith, n, c)) (omega arith)))

  pub load_subnodes-encode :
      (s : Subnodes) (fuel : ℕ) (rest : Bytes) (left : ℕ)
      → AreWellFormed s
      → length (encode_subnodes s rest) ≤ fuel
      → length (encode_subnodes s rest) ≤ left
      → left < 2 ^ 32
      → Reads s rest (
          load_subnodes
            (load_node fuel)
            (count s)
            (record { buffer = encode_subnodes s rest; bytes_left = left }))
  load_subnodes-encode nil fuel rest left w f l b = load_subnodes-nil (load_node fuel) rest left l b
  load_subnodes-encode (cons h t) fuel rest left w f l b =
      load_subnodes-cons (load_node fuel) h t rest _
        (load_node-encode h fuel (encode_subnodes t rest) left w.0 f l b)
        (λ left' l' b'.
          load_subnodes-encode t fuel rest left' w.2
            (omega (arith, encode-lt h (encode_subnodes t rest))) l' b')
