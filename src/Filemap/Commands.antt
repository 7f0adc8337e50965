-- ===== src/Filemap/Commands.antt =====
-- Sequences of the filemap commands of filemap.c, and the read-only maps in them.
use macports.Prelude.{◌≡◌, refl, Bytes, Bool, true, false, Option, none, some, arith}
use macports.Filemap.Types.{Code}
use macports.Filemap.Save.{SaveCalls, Disk}
use macports.Filemap.Load
use macports.Filemap.Load.{Loaded, ok, err, overrun, out_of_fuel, LoadCalls}
use macports.Filemap.Object.{
  Root, SFilemapObject, Interp, Reply, Step, close_object, set_variable, create_cmd, exists_object,
  get_object, is_read_only_object, list_object, save_object, set_object, unset_object, root_of,
  revert_object, OpenCalls, Locked, locked, refused, take_lock, opened, open_cmd, Command,
  on_object, filemap_cmd,
}

-- A read-only map is not dirty, and a map in RAM is not read-only.
abbrev IsClean : Option SFilemapObject → Type 0
IsClean none = Unit
IsClean (some o) =
    (o.is_read_only ≡ true → o.is_dirty ≡ false) × (o.is_ram_only ≡ true → o.is_read_only ≡ false)

-- Where the command returns, the variable has the property.
abbrev Keeps : Step → Type 0
Keeps none = Unit
Keeps (some (r, i)) = IsClean i.variable

set_variable-Keeps : (i : Interp) (o : SFilemapObject) → IsClean (some o) → Keeps (set_variable i o)
unfolding set_variable
set_variable-Keeps i o c = ground arith

on_object-Keeps :
    (f : Interp → SFilemapObject → Step) (i : Interp)
    → ((o : SFilemapObject) → IsClean (some o) → i.variable ≡ some o → Keeps (f i o))
    → IsClean i.variable
    → Keeps (on_object f i)
unfolding on_object
on_object-Keeps f i k c = go i.variable refl c
  where
    go : (v : Option SFilemapObject) → i.variable ≡ v → IsClean v → Keeps (on_object f i)
    go none e c = rw (e, on_object) (rw e tt)
    go (some o) e c = rw (e, on_object) (k o c e)

module _ (i : Interp) (o : SFilemapObject) (c : IsClean (some o)) (v : i.variable ≡ some o) where
  close-Keeps : (os : SaveCalls) → Keeps (close_object os i o)
  unfolding close_object
  close-Keeps os = ground arith

  exists-Keeps : (key : Bytes) → Keeps (exists_object key i o)
  unfolding exists_object
  exists-Keeps key = ground (arith, c)

  get-Keeps : (key : Bytes) → Keeps (get_object key i o)
  unfolding get_object
  get-Keeps key = ground (arith, c)

  is_read_only-Keeps : Keeps (is_read_only_object i o)
  unfolding is_read_only_object
  is_read_only-Keeps = rw v c

  list-Keeps : (value : Bytes) → Keeps (list_object value i o)
  unfolding list_object
  list-Keeps value = ground (arith, c)

  save-Keeps : (os : SaveCalls) → Keeps (save_object os i o)
  unfolding save_object
  save-Keeps os = ground (arith, c)

  set-Keeps : (key value : Bytes) → Keeps (set_object key value i o)
  unfolding set_object
  set-Keeps key value = ground (arith, c)

  unset-Keeps : (key : Bytes) → Keeps (unset_object key i o)
  unfolding unset_object
  unset-Keeps key = ground (arith, c)

  revert-Keeps : (os : LoadCalls) → Keeps (revert_object os i o)
  unfolding revert_object
  revert-Keeps os = ground (arith, c)

open-Keeps :
    (readonly : Bool) (os : OpenCalls) (i : Interp)
    → IsClean i.variable
    → Keeps (open_cmd readonly os i)
unfolding open_cmd opened set_variable
open-Keeps readonly os i c = ground arith

create-Keeps : (i : Interp) → Keeps (create_cmd i)
unfolding create_cmd
create-Keeps i = set_variable-Keeps i _ ((λ e. cc), (λ e. refl))

filemap_cmd-Keeps : (c : Command) (i : Interp) → IsClean i.variable → Keeps (filemap_cmd c i)
unfolding filemap_cmd
filemap_cmd-Keeps (Command.close os) i k =
    on_object-Keeps (close_object os) i (λ o w e. close-Keeps i o w e os) k
filemap_cmd-Keeps Command.create i k = create-Keeps i
filemap_cmd-Keeps (Command.exists key) i k =
    on_object-Keeps (exists_object key) i (λ o w e. exists-Keeps i o w e key) k
filemap_cmd-Keeps (Command.get key) i k =
    on_object-Keeps (get_object key) i (λ o w e. get-Keeps i o w e key) k
filemap_cmd-Keeps Command.is_readonly i k =
    on_object-Keeps is_read_only_object i (λ o w e. is_read_only-Keeps i o w e) k
filemap_cmd-Keeps (Command.list value) i k =
    on_object-Keeps (list_object value) i (λ o w e. list-Keeps i o w e value) k
filemap_cmd-Keeps (Command.open_database readonly os) i k = open-Keeps readonly os i k
filemap_cmd-Keeps Command.open_with_option i k = k
filemap_cmd-Keeps (Command.revert os) i k =
    on_object-Keeps (revert_object os) i (λ o w e. revert-Keeps i o w e os) k
filemap_cmd-Keeps (Command.save os) i k =
    on_object-Keeps (save_object os) i (λ o w e. save-Keeps i o w e os) k
filemap_cmd-Keeps (Command.set key value) i k =
    on_object-Keeps (set_object key value) i (λ o w e. set-Keeps i o w e key value) k
filemap_cmd-Keeps (Command.unset key) i k =
    on_object-Keeps (unset_object key) i (λ o w e. unset-Keeps i o w e key) k

-- The states that a sequence of commands leads to.
pub data Reach (i : Interp) : Interp → Type 0 where
  here : Reach i i
  next :
      {j k : Interp} (c : Command) (r : Reply)
      → Reach i j
      → filemap_cmd c j ≡ some (r, k)
      → Reach i k

Keeps-some : (s : Step) (r : Reply) (k : Interp) → s ≡ some (r, k) → Keeps s → IsClean k.variable
Keeps-some s r k e h = rw e at h

Reach-IsClean : {i j : Interp} → i.variable ≡ none → Reach i j → IsClean j.variable
Reach-IsClean e here = rw e tt
Reach-IsClean {j = k} e (next {j = j} c r reach step) =
    Keeps-some (filemap_cmd c j) r k step (filemap_cmd-Keeps c j (Reach-IsClean e reach))

-- The same files, where a database that is missing counts as empty.
abbrev SameFiles : Disk → Disk → Type 0
SameFiles d e = (Load.contents_of d ≡ Load.contents_of e) × (d.temporary ≡ e.temporary)

abbrev KeepsFiles : Disk → Step → Type 0
KeepsFiles d none = Unit
KeepsFiles d (some (r, i)) = SameFiles i.disk d

load-SameFiles : (os : LoadCalls) (d : Disk) → SameFiles (Load.load os d).1 d
unfolding Load.load
load-SameFiles os d = ground arith

set_variable-KeepsFiles :
    (d : Disk) (i : Interp) (o : SFilemapObject)
    → SameFiles i.disk d
    → KeepsFiles d (set_variable i o)
unfolding set_variable
set_variable-KeepsFiles d i o h = ground arith

opened-KeepsFiles :
    (d : Disk) (read_only : Bool) (i : Interp) (r : Option (Code × Root))
    → SameFiles i.disk d
    → KeepsFiles d (opened read_only i r)
unfolding opened set_variable
opened-KeepsFiles d read_only i r h = ground arith

open-KeepsFiles :
    (readonly : Bool) (os : OpenCalls) (i : Interp) → KeepsFiles i.disk (open_cmd readonly os i)
unfolding open_cmd
open-KeepsFiles readonly os i = go (take_lock readonly os) refl
  where
    go : (l : Locked) → take_lock readonly os ≡ l → KeepsFiles i.disk (open_cmd readonly os i)
    go (refused code) e = rw (e, open_cmd) (refl, refl)
    go (locked read_only) e =
        rw (e, open_cmd)
          (opened-KeepsFiles i.disk read_only
            (record i { disk = (Load.load os.load_calls i.disk).1 })
            (root_of (Load.load os.load_calls i.disk).0) (load-SameFiles os.load_calls i.disk))

module _ (i : Interp) (o : SFilemapObject) (ro : o.is_read_only ≡ true)
    (clean : o.is_dirty ≡ false) where
  revert-KeepsFiles : (os : LoadCalls) → KeepsFiles i.disk (revert_object os i o)
  unfolding revert_object
  revert-KeepsFiles os = ground (arith, load-SameFiles os i.disk)

  close-KeepsFiles : (os : SaveCalls) → KeepsFiles i.disk (close_object os i o)
  unfolding close_object
  close-KeepsFiles os = ground arith

  save-KeepsFiles : (os : SaveCalls) → KeepsFiles i.disk (save_object os i o)
  unfolding save_object
  save-KeepsFiles os = ground arith

  -- The command on the object of a read-only map.
  object-KeepsFiles : (c : Command) → i.variable ≡ some o → KeepsFiles i.disk (filemap_cmd c i)
  unfolding filemap_cmd on_object
  object-KeepsFiles (Command.close os) e = rw (e, on_object) (close-KeepsFiles os)
  object-KeepsFiles Command.create e =
      unfold create_cmd in set_variable-KeepsFiles i.disk i _ (refl, refl)
  object-KeepsFiles (Command.exists key) e = unfold exists_object in ground arith
  object-KeepsFiles (Command.get key) e = unfold get_object in ground arith
  object-KeepsFiles Command.is_readonly e = unfold is_read_only_object in ground arith
  object-KeepsFiles (Command.list value) e = unfold list_object in ground arith
  object-KeepsFiles (Command.open_database readonly os) e = open-KeepsFiles readonly os i
  object-KeepsFiles Command.open_with_option e = (refl, refl)
  object-KeepsFiles (Command.revert os) e = rw (e, on_object) (revert-KeepsFiles os)
  object-KeepsFiles (Command.save os) e = rw (e, on_object) (save-KeepsFiles os)
  object-KeepsFiles (Command.set key value) e = unfold set_object in ground arith
  object-KeepsFiles (Command.unset key) e = unfold unset_object in ground arith

KeepsFiles-some :
    (d : Disk) (s : Step) (r : Reply) (k : Interp)
    → s ≡ some (r, k)
    → KeepsFiles d s
    → SameFiles k.disk d
KeepsFiles-some d s r k e h = rw e at h

-- After any sequence of commands from a state without a filemap: if the variable holds a read-only
-- map, the map is not dirty, and whatever command comes next and returns leaves the contents of the database and
-- the temporary file as they are, where a missing database counts as empty.
pub read_only_untouched :
    {i j k : Interp} (o : SFilemapObject) (c : Command) (r : Reply)
    → i.variable ≡ none
    → Reach i j
    → j.variable ≡ some o
    → o.is_read_only ≡ true
    → filemap_cmd c j ≡ some (r, k)
    → (o.is_dirty ≡ false)
      × (Load.contents_of k.disk ≡ Load.contents_of j.disk)
      × (k.disk.temporary ≡ j.disk.temporary)
read_only_untouched {j} {k} o c r e reach v ro step =
    let clean : IsClean (some o) = rw v at (Reach-IsClean e reach) in
    let files =
      KeepsFiles-some j.disk (filemap_cmd c j) r k step
        (object-KeepsFiles j o ro (clean.0 ro) c v) in
    (clean.0 ro, files.0, files.1)
