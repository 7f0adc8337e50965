-- ===== src/Filemap/Database.antt =====
-- The database file of filemap.c as a whole: what `Save` makes of it, and `Load` of what `Save` wrote.
use macports.Prelude.{
  ℕ, zero, suc, if◌then◌else◌, ◌-◌, ◌^◌, ◌<◌, ◌≤◌, ◌≡◌, ◌≢◌, refl, sym, ◌∙◌, false, ap, [], ◌++◌,
  Bytes, length, Option, none, some, arith,
}
use macports.Filemap.Types.{node, Subnodes, Code, no_error, errno}
use macports.Filemap.Sorted.{AreWellFormed}
use macports.Filemap.Set.{is_ok}
use macports.Filemap.Save.{
  Fate, whole, short, error_code, Out, ◌>>◌, write, save_node, save_tree, finish_save, save,
  SaveCalls, Disk, signature, version,
}
use macports.Filemap.Load.{ok, load_buffer, load_contents, load, load_node, same_bytes}
use macports.Filemap.RoundTrip.{
  encode, load_node-node, load_directory-encode, load_subnodes-encode, encode_subnodes-le,
}
use macports.Filemap.Fields.{Reads}
use macports.Filemap.Writers.{
  LeavesErrno, Writes, write-Writes, >>-Writes, Writes-cast, save_node-Writes,
}

-- The contents of a database file with a given tree.
unfoldable pub database_of : Subnodes → Bytes
database_of tree = signature ++ (version ++ encode (node [] tree) [])

save_tree-Writes :
    (fate : ℕ → Fate) (leaves : LeavesErrno fate) (tree : Subnodes)
    → Writes fate leaves (save_tree fate tree) (database_of tree)
unfolding save_tree database_of
save_tree-Writes fate leaves tree =
    Writes-cast fate leaves
      (write fate signature >> write fate version >> save_node fate (node [] tree))
      (save_tree fate tree) _ _ (λ out. refl) refl
      (>>-Writes fate leaves _ _ _ _
        (>>-Writes fate leaves _ _ _ _ (write-Writes fate leaves signature)
          (write-Writes fate leaves version))
        (save_node-Writes fate leaves (node [] tree)))

finish_save-atomic :
    (os : SaveCalls) (disk : Disk) (r : Code × Out) (contents : Bytes)
    → (r.0 ≡ no_error → r.1.written ≡ contents)
    → error_code r.0 ≡ r.0
    → (finish_save os disk r).1.database
      ≡ (if is_ok (finish_save os disk r).0 then some contents else disk.database)
unfolding finish_save
finish_save-atomic os disk (no_error, out) contents h k = ground (arith, h refl)
finish_save-atomic os disk (errno e, out) contents h k = rw k
finish_save-atomic os disk (_, out) contents h k = refl

-- `Save` is atomic, whatever open(2), write(2) and rename(2) answer, if errno is not 0 after a short
-- write: if `Save` reports success, the database holds the
-- signature, the version and the bytes of the tree; if it reports an error, the database is the one
-- from before.
pub save_atomic :
    (os : SaveCalls) (tree : Subnodes) (disk : Disk)
    → LeavesErrno os.fate
    → (save os tree disk).1.database
      ≡ (if is_ok (save os tree disk).0 then some (database_of tree) else disk.database)
unfolding save
save_atomic os tree disk leaves = go os.open_temporary refl
  where
    start : Out
    start = record { calls = 0; written = [] }

    go :
        (o : Option ℕ)
        → os.open_temporary ≡ o
        → (save os tree disk).1.database
          ≡ (if is_ok (save os tree disk).0 then some (database_of tree) else disk.database)
    go (some e) h = rw (h, save)
    go none h =
        rw (h, save)
          (finish_save-atomic os disk (save_tree os.fate tree start) (database_of tree)
            ((save_tree-Writes os.fate leaves tree).appends start)
            ((save_tree-Writes os.fate leaves tree).fails start))

-- Every write takes the whole of its buffer.
whole-LeavesErrno : (fate : ℕ → Fate) → ((n : ℕ) → fate n ≡ whole) → LeavesErrno fate
whole-LeavesErrno fate all n k e h = absurd (whole≢short k e (sym (all n) ∙ h))
  where
    whole≢short : (k e : ℕ) → whole ≢ short k e
    whole≢short k e h = cc

pub save-fails :
    (os : SaveCalls) (tree : Subnodes) (disk : Disk)
    → is_ok (save os tree disk).0 ≡ false
    → (save os tree disk).1.database ≡ disk.database
unfolding save finish_save
save-fails os tree disk h = ground (arith, h)

-- The root, whose key is empty, is read back.
load_root :
    (tree : Subnodes) (fuel left : ℕ)
    → AreWellFormed tree
    → length (encode (node [] tree) []) ≤ fuel
    → length (encode (node [] tree) []) ≤ left
    → left < 2 ^ 32
    → Reads
        (node [] tree)
        []
        (load_node fuel (record { buffer = encode (node [] tree) []; bytes_left = left }))
unfolding encode
load_root tree zero left w f l b = absurd (omega arith)
load_root tree (suc fuel) left w f l b =
    let c = encode_subnodes-le tree [] in
    load_node-node fuel [] tree [] left tt (omega arith) l b (
      load_directory-encode (load_node fuel) [] tree [] (left - 1 - 0) (omega (arith, c))
        (omega (arith, c))
        (load_subnodes-encode tree fuel [] (left - 1 - 0 - 4) w (omega (arith, c))
          (omega (arith, c)) (omega arith)))

load_buffer-database_of :
    (tree : Subnodes)
    → AreWellFormed tree
    → length (database_of tree) < 2 ^ 32
    → load_buffer (database_of tree) ≡ ok (node [] tree)
unfolding load_buffer database_of same_bytes
load_buffer-database_of tree w b =
    let (left, e, _, _) =
      load_root tree (suc (length (database_of tree))) (length (database_of tree) - 28) w
        (omega arith) (omega arith) (omega arith) in
    rw e

database-ge : (tree : Subnodes) → 28 ≤ length (database_of tree)
unfolding database_of
database-ge tree = omega arith

load_contents-database_of :
    (tree : Subnodes)
    → load_buffer (database_of tree) ≡ ok (node [] tree)
    → load_contents (record { open_database = none; fstat = none; read = none }) (database_of tree)
      ≡ ok (node [] tree)
unfolding load_contents
load_contents-database_of tree e = ground (arith, e, database-ge tree)

finish_save-done :
    (fate : ℕ → Fate) (disk : Disk) (r : Code × Out) (contents : Bytes)
    → r.0 ≡ no_error
    → r.1.written ≡ contents
    → finish_save (record { open_temporary = none; fate = fate; rename = none }) disk r
      ≡ (no_error, record { database = some contents; temporary = none })
unfolding finish_save
finish_save-done fate disk (no_error, out) contents h e =
    ap (λ c. (no_error, record { database = some c; temporary = none })) e
finish_save-done fate disk (_, out) contents h e = cc

-- What `Save` writes, `Load` reads: with a well-formed tree whose database is smaller than 4 GB, and
-- with no failing call, `Save` succeeds, and `Load` on the disk that it leaves returns the same tree
-- and changes nothing.
pub load-save :
    (fate : ℕ → Fate) (tree : Subnodes) (disk : Disk)
    → ((n : ℕ) → fate n ≡ whole)
    → AreWellFormed tree
    → length (database_of tree) < 2 ^ 32
    → (disk' : Disk) × (save
          (record { open_temporary = none; fate = fate; rename = none })
          tree
          disk
        ≡ (no_error, disk'))
      × (load (record { open_database = none; fstat = none; read = none }) disk'
          ≡ (ok (node [] tree), disk'))
unfolding save load
load-save fate tree disk all w b =
    let start : Out = record { calls = 0; written = [] } in
    let leaves = whole-LeavesErrno fate all in
    let done = (save_tree-Writes fate leaves tree).succeeds all start in
    let what = (save_tree-Writes fate leaves tree).appends start done in
    let disk' : Disk = record { database = some (database_of tree); temporary = none } in
    (
      disk',
      finish_save-done fate disk (save_tree fate tree start) (database_of tree) done what,
      ap (λ r. (r, disk')) (load_contents-database_of tree (load_buffer-database_of tree w b)),
    )
