-- ===== src/Daemondo/PidFile.antt =====
-- The pid file in base/src/programs/daemondo/main.c.
use macports.Prelude.{[], ◌∷◌, List, if◌then◌else◌, Bool, true, false, not, none, some, ◌&&◌}
use macports.Prelude.Int.{ℤ, pos}
use macports.Daemondo.Types.{
  PidStyle, style_exec, style_file_clean, Config, File, absent, no_number, holds, Globals, no_pid,
  same_pid, Poll,
}

-- `fopen` and `fscanf`, with 0 taken for no pid.
abbrev pub pid_in : File → ℤ
pid_in absent = no_pid
pid_in no_number = no_pid
pid_in (holds pid) = if same_pid pid (pos 0) then no_pid else pid

-- `CheckForValidPidFile`.
unfoldable pub check_for_valid_pid_file : Poll → ℤ
check_for_valid_pid_file poll =
    let pid = pid_in poll.seen in
    if not (same_pid pid no_pid) && not poll.alive then no_pid else pid

-- `WaitForValidPidFile`: the pid, and what the file was at the last look.
unfoldable pub wait_for_valid_pid_file : List Poll → Poll → ℤ × File
unfolding check_for_valid_pid_file
wait_for_valid_pid_file [] last = (check_for_valid_pid_file last, last.seen)
wait_for_valid_pid_file (poll ∷ polls) last =
    let rest = wait_for_valid_pid_file polls last in
    if same_pid (check_for_valid_pid_file poll) no_pid
    then rest
    else (check_for_valid_pid_file poll, poll.seen)

-- The cases of the `switch` in `CreatePidFile` and of the one in `DestroyPidFile`.
abbrev pub writes_pid_file : PidStyle → Bool
writes_pid_file style_exec = true
writes_pid_file _ = false

abbrev pub removes_pid_file : PidStyle → Bool
removes_pid_file style_exec = true
removes_pid_file style_file_clean = true
removes_pid_file _ = false

module _ (c : Config) where
  -- unlink(2) of the pid file.
  abbrev pub unlinked : Globals → Globals
  unlinked s = if c.can_unlink then record s { file = absent } else s

  -- `CreatePidFile`.
  unfoldable pub create_pid_file : Bool → Globals → Globals
  create_pid_file can_write s = elim c.pid_file [
    | none ↦ s
    | some path ↦
        if writes_pid_file c.pid_style && can_write
        then record s { file = holds s.running_pid }
        else s
  ]

  -- `DestroyPidFile`.
  unfoldable pub destroy_pid_file : Globals → Globals
  destroy_pid_file s = elim c.pid_file [
    | none ↦ s
    | some path ↦ if removes_pid_file c.pid_style then unlinked s else s
  ]

  -- `DeletePreexistingPidFile`, behind the test of its caller that there is a name for the file.
  unfoldable pub delete_preexisting_pid_file : Globals → Globals
  delete_preexisting_pid_file s = elim c.pid_file [
    | none ↦ s
    | some path ↦ if same_pid (pid_in s.file) no_pid then s else unlinked s
  ]
