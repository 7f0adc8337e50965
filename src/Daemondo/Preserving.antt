-- ===== src/Daemondo/Preserving.antt =====
-- What holds through the waits and the commands of daemondo, if it holds through their single steps.
use macports.Prelude.{
  ℕ, suc, [], ◌∷◌, List, Bytes, ◌≡◌, if◌then◌else◌, Bool, true, false, Bool-cases, inl, inr, Option,
  Option-cases, none, some,
}
use macports.Prelude.Int.{ℤ, pos}
use macports.Daemondo.Types.{
  Config, Globals, Action, launched, signalled, died, Watched, sigchld, exited, WaitRound, watching,
  impatient, ExecCalls, given, is_known, same_pid, no_pid,
}
use macports.Daemondo.PidFile.{destroy_pid_file}
use macports.Daemondo.Children.{
  unmonitor_child, process_child_death, check_children, on_watched, on_all_watched,
  wait_child_death, exec,
}
use macports.Daemondo.Control.{StopCalls, RestartCalls, stop, restart}
use macports.Daemondo.Loop.{
  will_sleep, can_sleep, has_powered_on, other_message, RunLoopEvent, on_sigterm, on_sighup,
  on_other_signal, on_child, on_request, on_power, on_timer, schedule_delayed_restart,
  schedule_restart_for_time, power_callback, sigterm_callback, sighup_callback,
  scheduled_restart_callback, on_event, run_loop, goes_on,
}

-- An action that neither starts a process to be tracked nor sees one die.
abbrev pub IsQuiet : Action → Type 0
IsQuiet (launched argv pid) = ⊥
IsQuiet (died pid) = ⊥
IsQuiet _ = Unit

-- Either branch of a test.
pub either {ι ℓ κ} :
    {F : Type ι} {S : Type ℓ} (P : S → Type κ) (b : Bool) (x y : F × S)
    → P x.1
    → P y.1
    → P ((if b then x else y).1)
either P true x y h k = h
either P false x y h k = k

pub either_state {ℓ κ} :
    {S : Type ℓ} (P : S → Type κ) (b : Bool) (x y : S) → P x → P y → P (if b then x else y)
either_state P true x y h k = h
either_state P false x y h k = k

module _ {κ} (c : Config) (P : Globals → Type κ)
    (dies : (child : ℤ) (s : Globals) → P s → P (process_child_death c child s))
    (does : (a : Action) (s : Globals) → IsQuiet a → P s → P (record s { log = a ∷ s.log })) where
  check_children-keeps : (pids : List ℤ) (s : Globals) → P s → P (check_children c pids s)
  unfolding check_children
  check_children-keeps [] s h = h
  check_children-keeps (pid ∷ pids) s h = check_children-keeps pids _ (dies pid s h)

  pub on_watched-keeps : (w : Watched) (s : Globals) → P s → P (on_watched c w s)
  unfolding on_watched
  on_watched-keeps (sigchld pids) s h = check_children-keeps pids s h
  on_watched-keeps (exited pid) s h = dies pid s h

  pub on_all_watched-keeps : (ws : List Watched) (s : Globals) → P s → P (on_all_watched c ws s)
  unfolding on_all_watched
  on_all_watched-keeps [] s h = h
  on_all_watched-keeps (w ∷ ws) s h = on_all_watched-keeps ws _ (on_watched-keeps w s h)

  wait_child_death-keeps :
      (child : ℤ) (rounds : List WaitRound) (s : Globals)
      → P s
      → P (wait_child_death c child rounds s)
  unfolding wait_child_death
  wait_child_death-keeps child [] s h = dies child s h
  wait_child_death-keeps child (watching ws ∷ rounds) s h =
      wait_child_death-keeps child rounds _ (on_all_watched-keeps ws s h)
  wait_child_death-keeps child (impatient ∷ rounds) s h =
      wait_child_death-keeps child rounds _ (does _ s tt h)

  pub exec_sync-keeps :
      (args : Option (List Bytes)) (calls : ExecCalls) (s : Globals)
      → P s
      → P ((exec c args true calls s).1)
  unfolding exec
  exec_sync-keeps none calls s h = h
  exec_sync-keeps (some []) calls s h = h
  exec_sync-keeps (some ([] ∷ args)) calls s h = h
  exec_sync-keeps (some ((a ∷ name) ∷ args)) calls s h = elim (Option-cases calls.fork) [
    | inl f ↦ rw (exec, f) h
    | inr (n, f) ↦
        rw (exec, f) (wait_child_death-keeps (pos (suc n)) calls.rounds _ (does _ s tt h))
  ]

  -- `Stop`, if P holds through the end of a stop-cmd.
  pub stop-keeps :
      (calls : StopCalls)
      → (given c.stop_args ≡ true
          → (s : Globals) → P s
          → P (destroy_pid_file c (unmonitor_child s)))
      → (s : Globals) → P s
      → P ((stop c calls s).1)
  unfolding stop
  stop-keeps calls ends s h =
      let after = exec_sync-keeps c.stop_args calls.stop_exec s h in
      let waits =
        wait_child_death-keeps s.running_pid calls.stop_rounds _ (does (signalled _ _) s tt h) in
      elim (Bool-cases (given c.stop_args)) [
        | inl g ↦
            let (pid, s') = exec c c.stop_args true calls.stop_exec s in
            rw (stop, g)
              (either P (same_pid pid no_pid) (2, s') (0, destroy_pid_file c (unmonitor_child s'))
                after (ends g s' after))
        | inr g ↦ rw (stop, g) (either P (is_known s.running_pid) _ _ waits h)
      ]

-- Through the events of the loop, which handles one only where it goes on: there P holds.
module _ {κ ι} (c : Config) (P : Globals → Type κ) (Q : Globals → Type ι)
    (weaken : (s : Globals) → P s → Q s) (active : (s : Globals) → Q s → goes_on c s ≡ true → P s)
    (watches : (w : Watched) (s : Globals) → P s → Q (on_watched c w s))
    (restarts : (calls : RestartCalls) (s : Globals) → P s → Q ((restart c calls s).1))
    (terminates : (calls : StopCalls) (s : Globals) → P s → Q (sigterm_callback c calls s))
    (times : (t : Option ℕ) (s : Globals) → P s → P (record s { restart_timer = t })) where
  on_event-keeps : (e : RunLoopEvent) (s : Globals) → P s → Q (on_event c e s)
  unfolding on_event sighup_callback schedule_delayed_restart schedule_restart_for_time
      power_callback scheduled_restart_callback
  on_event-keeps (on_sigterm calls) s h = terminates calls s h
  on_event-keeps (on_sighup calls) s h =
      either_state Q s.terminating _ _ (weaken s h) (restarts calls s h)
  on_event-keeps on_other_signal s h = weaken s h
  on_event-keeps (on_child w) s h = watches w s h
  on_event-keeps (on_request now) s h = weaken _ (times _ s h)
  on_event-keeps (on_power now will_sleep) s h = weaken s h
  on_event-keeps (on_power now can_sleep) s h = weaken s h
  on_event-keeps (on_power now other_message) s h = weaken s h
  on_event-keeps (on_power now has_powered_on) s h =
      either_state Q c.restart_on_wakeup _ _ (weaken _ (times _ s h)) (weaken s h)
  on_event-keeps (on_timer calls) s h = elim (Option-cases s.restart_timer) [
    | inl t ↦ rw (scheduled_restart_callback, t) (weaken s h)
    | inr (time, t) ↦ rw (scheduled_restart_callback, t) (restarts calls _ (times none s h))
  ]

  pub run_loop-keeps : (es : List RunLoopEvent) (s : Globals) → Q s → Q ((run_loop c es s).1)
  unfolding run_loop
  run_loop-keeps [] s h = either Q (goes_on c s) (none, s) (some [], s) h h
  run_loop-keeps (e ∷ es) s h = elim (Bool-cases (goes_on c s)) [
    | inl g ↦ rw (run_loop, g) (run_loop-keeps es _ (on_event-keeps e s (active s h g)))
    | inr g ↦ rw (run_loop, g) h
  ]
