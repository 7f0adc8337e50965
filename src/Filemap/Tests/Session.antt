-- ===== src/Filemap/Tests/Session.antt =====
-- Sequences of commands of filemap.c on a small map.
use macports.Prelude.{◌≡◌, refl, [], true, false, none, some, codes}
use macports.Filemap.Types.{eperm, leaf, node, Subnodes, nil, cons}
use macports.Filemap.Tree.{set}
use macports.Filemap.Set.{is_ok}
use macports.Filemap.Save.{save, finish_save, save_tree, write, save_node}
use macports.Filemap.Load.{load, load_contents, contents_of}
use macports.Filemap.Object.{
  Command, filemap_cmd, tcl_ok, tcl_error, void, Interp, SFilemapObject, tree, open_cmd, take_lock,
  lock_read_only, opened, set_variable, root_of, reply_from_code, on_object, set_object,
}
use macports.Filemap.Commands.{here, next, read_only_untouched}
use macports.Filemap.Persistence.{save_succeeds, open_succeeds, holding, failed_save_loses_changes}
use macports.Filemap.Samples.{zlib, sample, no_failure, disk_full, no_files}

-- The tree after the new file is set.
abbrev sample_man : Subnodes
sample_man =
    cons
      (node (codes "opt") (
        cons (leaf (codes "bin") zlib)
          (cons (leaf (codes "lib") (codes "tk")) (cons (leaf (codes "Man") zlib) nil))))
      (cons (leaf (codes "usr") zlib) nil)

disk_full-fails : is_ok (save (save_succeeds disk_full) sample no_files).0 ≡ false
unfolding save finish_save save_tree write save_node
disk_full-fails = refl

failed_save_loses_changes_example :
    (filemap_cmd (Command.save (save_succeeds disk_full)) (holding sample true no_files)
      ≡ some (
        tcl_error (save (save_succeeds disk_full) sample no_files).0,
        holding sample false (save (save_succeeds disk_full) sample no_files).1,
      ))
    × (filemap_cmd
          (Command.close (save_succeeds no_failure))
          (holding sample false (save (save_succeeds disk_full) sample no_files).1)
        ≡ some (
          tcl_ok void,
          record { variable = none; disk = (save (save_succeeds disk_full) sample no_files).1 },
        ))
    × ((save (save_succeeds disk_full) sample no_files).1.database ≡ none)
failed_save_loses_changes_example =
    failed_save_loses_changes (save_succeeds disk_full) (save_succeeds no_failure) sample no_files
      disk_full-fails

-- A read-only map on a missing database.
abbrev empty_start : Interp
empty_start = record { variable = none; disk = no_files }

abbrev read_only_map : SFilemapObject
read_only_map = record {
  root = tree nil;
  is_read_only = true;
  is_dirty = false;
  is_ram_only = false;
}

abbrev after_open : Interp
after_open = record {
  variable = some read_only_map;
  disk = record { database = some []; temporary = none };
}

open_read_only :
    filemap_cmd (Command.open_database true open_succeeds) empty_start
    ≡ some (tcl_ok void, after_open)
unfolding filemap_cmd open_cmd take_lock lock_read_only opened set_variable root_of load
    load_contents reply_from_code
open_read_only = refl

set_read_only :
    filemap_cmd (Command.set (codes "/x") zlib) after_open ≡ some (tcl_error eperm, after_open)
unfolding filemap_cmd on_object set_object
set_read_only = refl

read_only_untouched_example :
    (read_only_map.is_dirty ≡ false)
    × (contents_of after_open.disk ≡ contents_of after_open.disk)
    × (after_open.disk.temporary ≡ none)
read_only_untouched_example =
    read_only_untouched read_only_map (Command.set (codes "/x") zlib) (tcl_error eperm) refl
      (next (Command.open_database true open_succeeds) (tcl_ok void) here open_read_only) refl refl
      set_read_only
