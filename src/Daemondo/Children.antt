-- ===== src/Daemondo/Children.antt =====
-- The processes that daemondo watches: base/src/programs/daemondo/main.c from `MonitorChild` to `Exec`.
-- `CFRunLoopStop` is left out: the loops test the globals after every return of the run loop.
use macports.Prelude.{suc, [], ◌∷◌, List, Bytes, if◌then◌else◌, Bool, not, Option, none, some, ◌&&◌}
use macports.Prelude.Int.{ℤ, pos}
use macports.Daemondo.Types.{
  Config, Globals, launched, ran, signalled, died, sigkill, no_pid, same_pid, is_known, Watched,
  sigchld, exited, WaitRound, watching, impatient, ExecCalls,
}
use macports.Daemondo.PidFile.{destroy_pid_file}

-- `MonitorChild` and `UnmonitorChild`, less the kevent that the first asks for.
abbrev pub monitor_child : ℤ → Globals → Globals
monitor_child pid s = record s { running_pid = pid }

abbrev pub unmonitor_child : Globals → Globals
unmonitor_child s = record s { running_pid = pos 0 }

abbrev pub monitoring_child : Globals → Bool
monitoring_child s = not (same_pid s.running_pid (pos 0))

module _ (c : Config) where
  -- `ProcessChildDeath`.
  unfoldable pub process_child_death : ℤ → Globals → Globals
  unfolding destroy_pid_file
  process_child_death child s =
      if is_known s.running_pid && same_pid child s.running_pid
      then destroy_pid_file c (unmonitor_child (record s { log = died child ∷ s.log }))
      else s

  -- `CheckChildren`, with the pids that wait4(2) gives before it gives 0 or -1.
  unfoldable pub check_children : List ℤ → Globals → Globals
  unfolding process_child_death
  check_children [] s = s
  check_children (pid ∷ pids) s = check_children pids (process_child_death pid s)

  -- The callbacks that run in the mode for watching children: `SignalCallback` for SIGCHLD, and
  -- `KQueueCallBack`.
  unfoldable pub on_watched : Watched → Globals → Globals
  unfolding check_children process_child_death
  on_watched (sigchld pids) s = check_children pids s
  on_watched (exited pid) s = process_child_death pid s

  unfoldable pub on_all_watched : List Watched → Globals → Globals
  unfolding on_watched
  on_all_watched [] s = s
  on_all_watched (w ∷ ws) s = on_all_watched ws (on_watched w s)

  -- `WaitChildDeath`.
  unfoldable pub wait_child_death : ℤ → List WaitRound → Globals → Globals
  unfolding on_all_watched process_child_death
  wait_child_death child [] s = process_child_death child s
  wait_child_death child (watching ws ∷ rounds) s =
      wait_child_death child rounds (on_all_watched ws s)
  wait_child_death child (impatient ∷ rounds) s =
      wait_child_death child rounds (record s { log = signalled child sigkill ∷ s.log })

  -- The parent's side of `Exec`: the result and the state.
  unfoldable pub exec : Option (List Bytes) → Bool → ExecCalls → Globals → ℤ × Globals
  unfolding wait_child_death
  exec (some ((a ∷ name) ∷ args)) sync calls s = elim calls.fork [
    | none ↦ (no_pid, s)
    | some n ↦
        let argv = (a ∷ name) ∷ args in
        let pid = pos (suc n) in
        if sync
        then (pos 0, wait_child_death pid calls.rounds (record s { log = ran argv pid ∷ s.log }))
        else (pid, record s { log = launched argv pid ∷ s.log })
  ]
  exec _ sync calls s = (no_pid, s)
