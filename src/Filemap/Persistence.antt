-- ===== src/Filemap/Persistence.antt =====
-- The filemap commands of filemap.c across a close and an open, and after a save that fails.
use macports.Prelude.{ℕ, ◌≡◌, refl, ap, Bool, true, false, none, some, arith}
use macports.Filemap.Types.{Subnodes, Code}
use macports.Filemap.Tree
use macports.Filemap.Set.{is_ok}
use macports.Filemap.Save
use macports.Filemap.Save.{Fate, SaveCalls, Disk}
use macports.Filemap.Load
use macports.Filemap.Load.{LoadCalls}
use macports.Filemap.Database.{save-fails}
use macports.Filemap.Object.{
  tree, SFilemapObject, Interp, void, tcl_ok, tcl_error, reply_from_code, close_object, save_object,
  OpenCalls, Command, on_object, filemap_cmd,
}

-- No call of the operating system fails.
abbrev pub save_succeeds : (ℕ → Fate) → SaveCalls
save_succeeds fate = record { open_temporary = none; fate = fate; rename = none }

abbrev pub load_succeeds : LoadCalls
load_succeeds = record { open_database = none; fstat = none; read = none }

abbrev pub open_succeeds : OpenCalls
open_succeeds = record {
  open_rw = none;
  lock_rw = none;
  open_ro = none;
  lock_ro = none;
  load_calls = load_succeeds;
}

-- A map that was opened for writing.
abbrev pub writable : Subnodes → Bool → SFilemapObject
writable t dirty = record {
  root = tree t;
  is_read_only = false;
  is_dirty = dirty;
  is_ram_only = false;
}

abbrev pub holding : Subnodes → Bool → Disk → Interp
holding t dirty disk = record { variable = some (writable t dirty); disk = disk }

reply-error : (code : Code) → is_ok code ≡ false → reply_from_code code ≡ tcl_error code
unfolding reply_from_code
reply-error code e = ground arith

-- A save of a dirty map that fails leaves the database alone and reports the error, but it also marks the map as
-- not dirty: a close right after it succeeds, whatever the operating system would answer, without
-- writing anything, and the changes are lost.
pub failed_save_loses_changes :
    (os os' : SaveCalls) (t : Subnodes) (disk : Disk)
    → is_ok (Save.save os t disk).0 ≡ false
    → (filemap_cmd (Command.save os) (holding t true disk)
        ≡ some (tcl_error (Save.save os t disk).0, holding t false (Save.save os t disk).1))
      × (filemap_cmd (Command.close os') (holding t false (Save.save os t disk).1)
          ≡ some (tcl_ok void, record { variable = none; disk = (Save.save os t disk).1 }))
      × ((Save.save os t disk).1.database ≡ disk.database)
unfolding filemap_cmd on_object save_object close_object reply_from_code
failed_save_loses_changes os os' t disk e = (
  ap (λ r. some (r, holding t false (Save.save os t disk).1))
      (reply-error (Save.save os t disk).0 e),
  refl,
  save-fails os t disk e,
)
