-- ===== src/Filemap/Tests/Storage.antt =====
-- `Save` and `Load` of filemap.c on a small tree.
use macports.Prelude.{
  ℕ, ◌≡◌, ◌≢◌, ◌<◌, ◌^◌, ◌==◌, refl, [], ◌∷◌, ◌++◌, none, some, false, if◌then◌else◌, arith, codes,
  length,
}
use macports.Filemap.Types.{node, nil, no_error}
use macports.Filemap.Set.{is_ok}
use macports.Filemap.Save.{
  signature, version, kind_node, Disk, Fate, whole, short, save, finish_save, save_tree, write,
  save_node,
}
use macports.Prelude.Text.{c_string}
use macports.Filemap.Load.{
  ok, err, load_contents, contents_of, out_of_fuel, overrun, load, load_buffer, load_node,
  take_kind, take_string, take_count, read_count, load_directory, load_subnodes, same_bytes,
}
use macports.Filemap.RoundTrip.{encode}
use macports.Filemap.Writers.{LeavesErrno}
use macports.Filemap.Database.{database_of, save_atomic, load-save}
use macports.Filemap.Termination.{load_buffer-terminates}
use macports.Filemap.Persistence.{save_succeeds, load_succeeds}
use macports.Filemap.Samples.{sample, sample-AreWellFormed, no_failure, disk_full, no_files}

-- The database of an empty tree.
load_empty : load_buffer (database_of nil) ≡ ok (node [] nil)
unfolding load_buffer database_of load_node encode take_kind take_string c_string take_count
    read_count load_directory load_subnodes same_bytes
load_empty = refl

-- A read that gives fewer bytes, with errno 0: success, and no tree.
short_read :
    load_contents
      (record { open_database = none; fstat = none; read = some 0 })
      (signature ++ version)
    ≡ err no_error false
unfolding load_contents
short_read = refl

-- A database that ends after the kind of a node is read past its end.
load_torn : load_buffer (signature ++ (version ++ (kind_node ∷ []))) ≡ overrun
unfolding load_buffer load_node take_kind take_string c_string same_bytes
load_torn = refl

-- The ninth write stops short and leaves errno at 0: the save reads as a success, and the database
-- lacks the end of a key.
abbrev silent : ℕ → Fate
silent n = if n == 8 then short 2 0 else whole

save-silent : (save (save_succeeds silent) sample no_files).0 ≡ no_error
unfolding save finish_save save_tree write save_node
save-silent = refl

contents_of-silent :
    length (contents_of (save (save_succeeds silent) sample no_files).1)
    < length (database_of sample)
unfolding save finish_save save_tree write save_node database_of encode
contents_of-silent = omega arith

disk_full-LeavesErrno : LeavesErrno disk_full
disk_full-LeavesErrno n k e h = ground (arith, h)

save_atomic_example : (save (save_succeeds disk_full) sample no_files).1.database ≡ (
    if is_ok (save (save_succeeds disk_full) sample no_files).0
    then some (database_of sample)
    else none)
save_atomic_example = save_atomic (save_succeeds disk_full) sample no_files disk_full-LeavesErrno

sample-small : length (database_of sample) < 2 ^ 32
unfolding database_of encode
sample-small = omega arith

load-save_example :
    (disk' : Disk) × (save (save_succeeds no_failure) sample no_files ≡ (no_error, disk'))
    × (load load_succeeds disk' ≡ (ok (node [] sample), disk'))
load-save_example =
    load-save no_failure sample no_files (λ n. refl) sample-AreWellFormed sample-small

load_buffer-terminates_example : load_buffer (codes "org.darwinports") ≢ out_of_fuel
load_buffer-terminates_example = load_buffer-terminates (codes "org.darwinports")
