-- ===== src/Filemap/Load.antt =====
-- `Load` and `LoadNode` of base/src/pextlib1.0/filemap.c. What the operating system answers to each
-- call is an argument.
use macports.Prelude.{
  ℕ, zero, suc, ◌+◌, ◌-◌, ◌*◌, ◌%◌, ◌^◌, [], ◌∷◌, Bytes, length, take, drop, Option, none, some,
  ltb, ◌==◌, ◌&&◌, not, if◌then◌else◌, Bool, true, false,
}
use macports.Prelude.Text.{c_string}
use macports.Filemap.Types.{
  SHeader, leaf, node, Subnodes, nil, cons, Code, errno, name_max, signature_mismatch,
  unknown_version, unknown_node_kind, name_too_long, eof_while_loading,
}
use macports.Filemap.Save.{kind_node, kind_leaf, signature, version, Disk, error_code}

-- The result of a loading function. An error carries whether `outNode` was set all the same, to a
-- node with subnodes that were not read. `overrun` is a read past the end of the buffer, and
-- `out_of_fuel` belongs to the model only.
pub data Loaded {ℓ} (A : Type ℓ) : Type ℓ where
  ok : A → Loaded A
  err : Code → Bool → Loaded A
  overrun : Loaded A
  out_of_fuel : Loaded A

infixl 5 ◌>>=◌
abbrev pub ◌>>=◌ {ℓ κ} : {A : Type ℓ} {B : Type κ} → Loaded A → (A → Loaded B) → Loaded B
ok a >>= f = f a
err e torn >>= f = err e torn
overrun >>= f = overrun
out_of_fuel >>= f = out_of_fuel

-- `theDatabaseBuffer`, as what stands at the cursor, and `theBytesLeft`.
pub record Cursor : Type 0 where
  pub buffer : Bytes
  pub bytes_left : ℕ

-- A string of at most NAME_MAX characters, with its checks. The terminator is not counted in the
-- bytes that are left.
unfoldable pub take_string : Cursor → Loaded (Bytes × Cursor)
take_string cur = elim (c_string cur.buffer) [
  | none ↦ overrun
  | some (s, after) ↦
      if ltb name_max (length s)
      then err name_too_long false
      else if ltb (cur.bytes_left % 2 ^ 32) (length s)
      then err eof_while_loading false
      else ok (s, record { buffer = after; bytes_left = cur.bytes_left - length s })
]

unfoldable pub take_kind : Cursor → Loaded (ℕ × Cursor)
take_kind cur = if cur.bytes_left == 0 then err eof_while_loading false else elim cur.buffer [
  | [] ↦ overrun
  | kind ∷ after ↦
      if not (kind == kind_leaf) && not (kind == kind_node)
      then err unknown_node_kind false
      else ok (kind, record { buffer = after; bytes_left = cur.bytes_left - 1 })
]

-- `subnodesCount`, from four bytes.
unfoldable pub read_count : Bytes → Loaded (ℕ × Bytes)
read_count (a ∷ b ∷ c ∷ d ∷ after) = ok (a * 2 ^ 24 + b * 2 ^ 16 + c * 2 ^ 8 + d, after)
read_count _ = overrun

unfoldable pub take_count : Cursor → Loaded (ℕ × Cursor)
take_count cur = if ltb cur.bytes_left 4 then err eof_while_loading false else do
  (n, after) ← read_count cur.buffer
  ok (n, record { buffer = after; bytes_left = cur.bytes_left - 4 })

-- The loop over the subnodes, with the recursive call of `LoadNode`.
unfoldable pub load_subnodes :
    (Cursor → Loaded (SHeader × Cursor)) → ℕ → Cursor → Loaded (Subnodes × Cursor)
load_subnodes load zero cur = ok (nil, cur)
load_subnodes load (suc n) cur = do
  (h, cur') ← load cur
  (t, end) ← load_subnodes load n cur'
  ok (cons h t, end)

-- The two branches of `LoadNode` after the key.
unfoldable pub load_leaf : Bytes → Cursor → Loaded (SHeader × Cursor)
load_leaf key cur = do (value, end) ← take_string cur; ok (leaf key value, end)

abbrev pub torn {ℓ} : {A : Type ℓ} → Loaded A → Loaded A
torn (err e _) = err e true
torn r = r

unfoldable pub load_directory :
    (Cursor → Loaded (SHeader × Cursor)) → Bytes → Cursor → Loaded (SHeader × Cursor)
load_directory load key cur = do
  (n, at_subnodes) ← take_count cur
  (subs, end) ← torn (load_subnodes load n at_subnodes)
  ok (node key subs, end)

unfoldable pub load_node : ℕ → Cursor → Loaded (SHeader × Cursor)
load_node zero cur = out_of_fuel
load_node (suc fuel) cur = do
  (kind, at_key) ← take_kind cur
  (key, after_key) ← take_string at_key
  elim (kind == kind_leaf) [
    | true ↦ load_leaf key after_key
    | false ↦ load_directory (load_node fuel) key after_key
  ]

unfoldable pub same_bytes : Bytes → Bytes → Bool
same_bytes [] [] = true
same_bytes (a ∷ l) (b ∷ r) = a == b && same_bytes l r
same_bytes _ _ = false

-- The checks of `Load` on the contents of a file that is not empty.
unfoldable pub load_buffer : Bytes → Loaded SHeader
load_buffer contents =
    if not (same_bytes (take 24 contents) signature)
    then err signature_mismatch false
    else if not (same_bytes (take 4 (drop 24 contents)) version)
    then err unknown_version false
    else do
      (root, end) ←
          load_node (suc (length contents))
            (record { buffer = drop 28 contents; bytes_left = length contents - 28 })
      ok root

-- The answers of open(2), fstat(2) and read(2): an errno where the call fails. A read(2) that gives
-- fewer bytes leaves errno as it is, and `Load` returns that value: where it is 0, the caller reads
-- success, and no tree is set.
pub record LoadCalls : Type 0 where
  pub open_database : Option ℕ
  pub fstat : Option ℕ
  pub read : Option ℕ

-- open(2) creates the file where there is none.
abbrev pub contents_of : Disk → Bytes
contents_of disk = elim disk.database [ none ↦ [] | some b ↦ b ]

unfoldable pub load_contents : LoadCalls → Bytes → Loaded SHeader
load_contents os contents =
    if length contents == 0
    then ok (node [] nil)
    else if ltb (length contents) 28
    then err unknown_version false
    else elim os.read [ some e ↦ err (error_code (errno e)) false | none ↦ load_buffer contents ]

unfoldable pub load : LoadCalls → Disk → Loaded SHeader × Disk
load os disk = elim os.open_database [
  | some e ↦ (err (errno e) false, disk)
  | none ↦ (
    elim os.fstat [ some e ↦ err (errno e) false | none ↦ load_contents os (contents_of disk) ],
    record disk { database = some (contents_of disk) },
  )
]
