-- ===== src/Filemap/Object.antt =====
-- The Tcl commands of base/src/pextlib1.0/filemap.c: one function per subcommand, on one Tcl variable
-- and the database of one path. The words of the command are decoded and counted; what the
-- operating system answers is an argument.
use macports.Prelude.{
  ℕ, [], List, Bytes, Bool, true, false, not, ◌||◌, Option, none, some, if◌then◌else◌,
}
use macports.Filemap.Types.{
  SHeader, node, Subnodes, Code, no_error, eperm, eacces, unknown_option, errno,
}
use macports.Filemap.Path.{parse_path}
use macports.Filemap.Tree
use macports.Filemap.Save
use macports.Filemap.Save.{SaveCalls, Disk}
use macports.Filemap.Load
use macports.Filemap.Load.{Loaded, ok, err, overrun, out_of_fuel, LoadCalls}

-- `fRoot`: a tree, the null pointer, or what cannot be used as a tree, which is a node whose subnodes
-- were not read or a leaf in place of the root.
pub data Root : Type 0 where
  tree : Subnodes → Root
  null : Root
  torn : Root

-- `SFilemapObject`, without the descriptor of the lock and the reference count.
pub record SFilemapObject : Type 0 where
  pub root : Root
  pub is_read_only : Bool
  pub is_dirty : Bool
  pub is_ram_only : Bool

-- The variable, where it holds a filemap, and the files.
pub record Interp : Type 0 where
  pub variable : Option SFilemapObject
  pub disk : Disk

-- The result of a command: TCL_OK with a value, or TCL_ERROR with a code of the file, or TCL_ERROR
-- because there is no filemap in the variable or because the map is in RAM only.
pub data Value : Type 0 where
  void : Value
  boolean : Bool → Value
  text : Option Bytes → Value
  texts : List Bytes → Value

pub data Reply : Type 0 where
  tcl_ok : Value → Reply
  tcl_error : Code → Reply
  no_filemap : Reply
  ram_only : Reply

-- `SetResultFromErrorCode`
unfoldable pub reply_from_code : Code → Reply
reply_from_code no_error = tcl_ok void
reply_from_code code = tcl_error code

-- A command returns, or runs into undefined behaviour.
abbrev pub Step : Type 0
Step = Option (Reply × Interp)

abbrev pub with_object : Interp → SFilemapObject → Interp
with_object i o = record i { variable = some o }

-- A command that reads the tree.
abbrev pub on_tree : Root → (Subnodes → Step) → Step
on_tree (tree t) f = f t
on_tree null f = none
on_tree torn f = none

-- What frees a map: `Free` takes the null pointer too.
abbrev pub on_freed : Root → Step → Step
on_freed (tree t) s = s
on_freed null s = s
on_freed torn s = none

-- Unsetting the variable frees the object.
unfoldable pub close_object : SaveCalls → Interp → SFilemapObject → Step
close_object os i o =
    if not o.is_dirty || o.is_ram_only
    then on_freed o.root (some (tcl_ok void, record i { variable = none }))
    else on_tree o.root (λ t.
      let (code, disk') = Save.save os t i.disk in
      some (reply_from_code code, record { variable = none; disk = disk' }))

-- A new object in the variable. The object that it held is freed, not saved.
unfoldable pub set_variable : Interp → SFilemapObject → Step
set_variable i o = elim i.variable [
  | none ↦ some (tcl_ok void, with_object i o)
  | some old ↦ on_freed old.root (some (tcl_ok void, with_object i o))
]

unfoldable pub create_cmd : Interp → Step
create_cmd i =
    set_variable i (record {
      root = tree Tree.create;
      is_read_only = false;
      is_dirty = false;
      is_ram_only = true;
    })

unfoldable pub exists_object : Bytes → Interp → SFilemapObject → Step
exists_object key i o = on_tree o.root (λ t.
    some
      (tcl_ok (boolean (elim (Tree.get t (parse_path key)) [ none ↦ false | some v ↦ true ])), i))

unfoldable pub get_object : Bytes → Interp → SFilemapObject → Step
get_object key i o = on_tree o.root (λ t. some (tcl_ok (text (Tree.get t (parse_path key))), i))

unfoldable pub is_read_only_object : Interp → SFilemapObject → Step
is_read_only_object i o = some (tcl_ok (boolean o.is_read_only), i)

unfoldable pub list_object : Bytes → Interp → SFilemapObject → Step
list_object value i o = on_tree o.root (λ t. some (tcl_ok (texts (Tree.list t value)), i))

unfoldable pub save_object : SaveCalls → Interp → SFilemapObject → Step
save_object os i o =
    if o.is_ram_only
    then some (ram_only, i)
    else if o.is_dirty
    then on_tree o.root (λ t.
      let (code, disk') = Save.save os t i.disk in
      some (
        reply_from_code code,
        record { variable = some (record o { is_dirty = false }); disk = disk' },
      ))
    else some (tcl_ok void, i)

-- The map is dirty from then on, whatever the code is.
abbrev pub after_change : Interp → SFilemapObject → Option (Code × Subnodes) → Step
after_change i o none = none
after_change i o (some (code, t)) =
    some (reply_from_code code, with_object i (record o { root = tree t; is_dirty = true }))

unfoldable pub set_object : Bytes → Bytes → Interp → SFilemapObject → Step
set_object key value i o =
    if o.is_read_only
    then some (tcl_error eperm, i)
    else on_tree o.root (λ t. after_change i o (Tree.set t (parse_path key) value))

unfoldable pub unset_object : Bytes → Interp → SFilemapObject → Step
unset_object key i o =
    if o.is_read_only
    then some (tcl_error eperm, i)
    else on_tree o.root (λ t. after_change i o (Tree.delete t (parse_path key)))

-- What `Load` leaves in a root pointer that was null, and its code. A root that has a name, which
-- `Save` never writes, is beyond this model and counts as torn.
unfoldable pub root_of : Loaded SHeader → Option (Code × Root)
root_of (ok (node [] s)) = some (no_error, tree s)
root_of (ok _) = some (no_error, torn)
root_of (err code false) = some (code, null)
root_of (err code true) = some (code, torn)
root_of overrun = none
root_of out_of_fuel = none

abbrev pub reverted : SFilemapObject → Disk → Option (Code × Root) → Step
reverted o disk none = none
reverted o disk (some (code, r)) = some (
  reply_from_code code,
  record { variable = some (record o { root = r; is_dirty = false }); disk = disk },
)

-- The map is freed and loaded anew.
unfoldable pub revert_object : LoadCalls → Interp → SFilemapObject → Step
revert_object os i o =
    if o.is_ram_only
    then some (ram_only, i)
    else on_freed o.root (let (r, disk') = Load.load os i.disk in reverted o disk' (root_of r))

-- The answers of open(2) and fcntl(2) on the lock file, for writing and for reading, and of `Load`.
pub record OpenCalls : Type 0 where
  pub open_rw : Option Code
  pub lock_rw : Option ℕ
  pub open_ro : Option ℕ
  pub lock_ro : Option ℕ
  pub load_calls : LoadCalls

pub data Locked : Type 0 where
  locked : Bool → Locked
  refused : Code → Locked

-- The lock for reading.
unfoldable pub lock_read_only : OpenCalls → Locked
lock_read_only os = elim os.open_ro [
  | some e ↦ refused (errno e)
  | none ↦ elim os.lock_ro [ some e ↦ refused (errno e) | none ↦ locked true ]
]

-- The lock for writing, unless `readonly` is asked for; without the permission the one for reading.
unfoldable pub take_lock : Bool → OpenCalls → Locked
take_lock readonly os = if readonly then lock_read_only os else elim os.open_rw [
  | none ↦ elim os.lock_rw [ some e ↦ refused (errno e) | none ↦ locked false ]
  | some eacces ↦ lock_read_only os
  | some code ↦ refused code
]

-- What `FilemapOpenCmd` does once it has loaded the map: a new object, or an error after which the
-- root is freed.
unfoldable pub opened : Bool → Interp → Option (Code × Root) → Step
opened read_only i none = none
opened read_only i (some (no_error, r)) =
    set_variable i
      (record { root = r; is_read_only = read_only; is_dirty = false; is_ram_only = false })
opened read_only i (some (code, r)) = on_freed r (some (reply_from_code code, i))

unfoldable pub open_cmd : Bool → OpenCalls → Interp → Step
open_cmd readonly os i = elim (take_lock readonly os) [
  | refused code ↦ some (tcl_error code, i)
  | locked read_only ↦
      let (r, disk') = Load.load os.load_calls i.disk in
      opened read_only (record i { disk = disk' }) (root_of r)
]

-- `FilemapCmd`: the subcommands, with their words and the answers of the operating system.
pub data Command : Type 0 where
  close : SaveCalls → Command
  create : Command
  exists : Bytes → Command
  get : Bytes → Command
  is_readonly : Command
  list : Bytes → Command
  open_database : Bool → OpenCalls → Command
  open_with_option : Command
  revert : LoadCalls → Command
  save : SaveCalls → Command
  set : Bytes → Bytes → Command
  unset : Bytes → Command

-- `GetObjectFromVarName`, and the rest of the command where there is a filemap.
unfoldable pub on_object : (Interp → SFilemapObject → Step) → Interp → Step
on_object f i = elim i.variable [ none ↦ some (no_filemap, i) | some o ↦ f i o ]

unfoldable pub filemap_cmd : Command → Interp → Step
filemap_cmd (Command.close os) i = on_object (close_object os) i
filemap_cmd Command.create i = create_cmd i
filemap_cmd (Command.exists key) i = on_object (exists_object key) i
filemap_cmd (Command.get key) i = on_object (get_object key) i
filemap_cmd Command.is_readonly i = on_object is_read_only_object i
filemap_cmd (Command.list value) i = on_object (list_object value) i
filemap_cmd (Command.open_database readonly os) i = open_cmd readonly os i
filemap_cmd Command.open_with_option i = some (tcl_error unknown_option, i)
filemap_cmd (Command.revert os) i = on_object (revert_object os) i
filemap_cmd (Command.save os) i = on_object (save_object os) i
filemap_cmd (Command.set key value) i = on_object (set_object key value) i
filemap_cmd (Command.unset key) i = on_object (unset_object key) i
