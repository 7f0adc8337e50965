-- ===== src/Cregistry/Objects.antt =====
-- `reg_all_objects` of base/src/cregistry/util.c, on what sqlite3_step answers.
use macports.Prelude.{[], ◌∷◌, List, Option, none, some}
use macports.Cregistry.Growth.{RegList, reg_listcat}

-- A row, with the object that `fn` makes of it or none where it fails; the end; a busy database; or an
-- error.
pub data Answer (A : Type 0) : Type 0 where
  row : Option A → Answer A
  done busy failed : Answer A

-- The objects; or -1, and the objects that `del` is called for if it is given. `waiting` is a list of
-- answers that does not end, and `overrun` a write past the end of the array.
pub data Selected (A : Type 0) : Type 0 where
  objects deletes : List A → Selected A
  waiting overrun : Selected A

-- The loop over the rows.
unfoldable pub step_rows : {A : Type 0} → List (Answer A) → RegList A → Selected A
step_rows [] results = waiting
step_rows (row (some object) ∷ answers) results = elim (reg_listcat results object) [
  | none ↦ overrun
  | some results' ↦ step_rows answers results'
]
step_rows (row none ∷ answers) results = deletes results.items
step_rows (done ∷ answers) results = objects results.items
step_rows (busy ∷ answers) results = step_rows answers results
step_rows (failed ∷ answers) results = deletes results.items

unfoldable pub reg_all_objects : {A : Type 0} → List (Answer A) → Selected A
reg_all_objects answers = step_rows answers (record { items = []; room = 10 })
