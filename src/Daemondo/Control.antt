-- ===== src/Daemondo/Control.antt =====
-- `Start`, `Stop` and `Restart` of base/src/programs/daemondo/main.c. A result of 0 is success.
use macports.Prelude.{ℕ, ◌∷◌, List, if◌then◌else◌, Bool, true, false}
use macports.Prelude.Int.{ℤ}
use macports.Daemondo.Types.{
  PidStyle, style_none, is_file_style, Config, Globals, slept, signalled, sigterm, no_pid, same_pid,
  is_known, given, WaitRound, ExecCalls, StartCalls,
}
use macports.Daemondo.PidFile.{
  create_pid_file, destroy_pid_file, delete_preexisting_pid_file, wait_for_valid_pid_file,
}
use macports.Daemondo.Children.{monitor_child, unmonitor_child, wait_child_death, exec}

-- What a stop and a restart meet: the rounds of the wait for the process, the stop-cmd's or the
-- restart-cmd's answers, and those of the start that follows a stop.
pub record StopCalls : Type 0 where
  pub stop_rounds : List WaitRound
  pub stop_exec : ExecCalls

pub record RestartCalls : Type 0 where
  pub restart_stop : StopCalls
  pub restart_start : StartCalls
  pub restart_exec : ExecCalls

abbrev pub waits_for_command : PidStyle → Bool
waits_for_command style_none = true
waits_for_command _ = false

module _ (c : Config) where
  -- The end of `Start`: the process is tracked, with a pid file if its pid is known.
  unfoldable pub track : Bool → ℤ → Globals → ℕ × Globals
  unfolding create_pid_file
  track can_write pid s =
      if is_known pid
      then (0, create_pid_file c can_write (monitor_child pid s))
      else (0, monitor_child pid s)

  -- The pid by the style of the pid.
  unfoldable pub discover : StartCalls → ℤ → Globals → ℕ × Globals
  unfolding track wait_for_valid_pid_file
  discover calls pid s =
      let (found, file) = wait_for_valid_pid_file calls.polls calls.last_poll in
      if is_file_style c.pid_style
      then (if same_pid found no_pid
          then (2, record s { file = file })
          else track calls.can_write found (record s { file = file }))
      else if waits_for_command c.pid_style
      then track calls.can_write no_pid s
      else track calls.can_write pid s

  unfoldable pub start : StartCalls → Globals → ℕ × Globals
  unfolding exec discover delete_preexisting_pid_file
  start calls s =
      if given c.start_args
      then (let (pid, s') =
            exec c c.start_args (waits_for_command c.pid_style) calls.exec_calls
              (delete_preexisting_pid_file c s) in
          if same_pid pid no_pid then (2, s') else discover calls pid s')
      else (2, s)

  unfoldable pub stop : StopCalls → Globals → ℕ × Globals
  unfolding exec wait_child_death destroy_pid_file
  stop calls s =
      let (pid, s') = exec c c.stop_args true calls.stop_exec s in
      let signal = record s { log = signalled s.running_pid sigterm ∷ s.log } in
      if given c.stop_args
      then (if same_pid pid no_pid then (2, s') else (0, destroy_pid_file c (unmonitor_child s')))
      else if is_known s.running_pid
      then (0, wait_child_death c s.running_pid calls.stop_rounds signal)
      else (0, s)

  -- `Restart`, which does not look at the results of `Stop` and `Start`.
  unfoldable pub restart : RestartCalls → Globals → ℕ × Globals
  unfolding exec stop start
  restart calls s =
      let stopped = (stop calls.restart_stop s).1 in
      let (pid, s') = exec c c.restart_args true calls.restart_exec s in
      if given c.restart_args
      then (if same_pid pid no_pid then (2, s') else (0, s'))
      else (0, (start calls.restart_start (record stopped { log = slept ∷ stopped.log })).1)
