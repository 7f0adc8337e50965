-- ===== src/Filemap/Types.antt =====
-- The structures and the constants of base/src/pextlib1.0/filemap.c.
use macports.Prelude.{ℕ, Bytes}

-- NAME_MAX of <limits.h>. A buffer of `NAME_MAX + 1` characters holds a key or a value.
abbrev pub name_max : ℕ
name_max = 255

-- `SHeader` with what stands behind it: an `SLeaf` with its value, or an `SNode` with its array
-- of subnodes. `Subnodes` is the array `fSubnodes` with its length `fSubnodesCount`.
mutual
  pub data SHeader : Type 0 where
    leaf : Bytes → Bytes → SHeader
    node : Bytes → Subnodes → SHeader

  pub data Subnodes : Type 0 where
    nil : Subnodes
    cons : SHeader → Subnodes → Subnodes

-- 0, the error codes of the file, and the errno values that it uses or passes on.
pub data Code : Type 0 where
  no_error : Code
  signature_mismatch unknown_version key_not_found unknown_node_kind : Code
  name_too_long eof_while_loading unknown_option : Code
  eisdir enotdir eperm eacces : Code
  errno : ℕ → Code

-- `fKeySubpart`
abbrev pub key_subpart : SHeader → Bytes
key_subpart (leaf k v) = k
key_subpart (node k s) = k
