-- ===== src/Daemondo/Loop.antt =====
-- The restart timer, the callbacks and the core loop of base/src/programs/daemondo/main.c. What
-- the run loop does in one go is an event with the answers that its callback meets.
use macports.Prelude.{
  ℕ, ◌+◌, [], ◌∷◌, List, if◌then◌else◌, Bool, true, not, Option, none, some, ◌&&◌, ◌==◌,
}
use macports.Daemondo.Types.{Config, Globals, StartCalls, Watched}
use macports.Daemondo.Children.{monitoring_child, on_watched}
use macports.Daemondo.Control.{StopCalls, RestartCalls, start, stop, restart}

-- `CancelScheduledRestart`, and `ScheduleRestartForTime` where the timer can be created.
abbrev pub cancel_scheduled_restart : Globals → Globals
cancel_scheduled_restart s = record s { restart_timer = none }

unfoldable pub schedule_restart_for_time : ℕ → Globals → Globals
schedule_restart_for_time time s = record (cancel_scheduled_restart s) { restart_timer = some time }

-- The messages of the power management that `PowerCallBack` knows, and the others.
pub data Power : Type 0 where
  will_sleep can_sleep has_powered_on other_message : Power

-- What the run loop handles: a signal, a child, a restart that something asks for at a time (a change
-- of the dynamic store or a notification), a message of the power management, the time of the timer.
pub data RunLoopEvent : Type 0 where
  on_sigterm : StopCalls → RunLoopEvent
  on_sighup : RestartCalls → RunLoopEvent
  on_other_signal : RunLoopEvent
  on_child : Watched → RunLoopEvent
  on_request : ℕ → RunLoopEvent
  on_power : ℕ → Power → RunLoopEvent
  on_timer : RestartCalls → RunLoopEvent

module _ (c : Config) where
  -- `ScheduleDelayedRestart`.
  unfoldable pub schedule_delayed_restart : ℕ → Globals → Globals
  unfolding schedule_restart_for_time
  schedule_delayed_restart now s = schedule_restart_for_time (now + c.restart_hysteresis) s

  -- `PowerCallBack`, less the reply to the power management.
  unfoldable pub power_callback : ℕ → Power → Globals → Globals
  unfolding schedule_delayed_restart
  power_callback now has_powered_on s =
      if c.restart_on_wakeup then schedule_delayed_restart now s else s
  power_callback now _ s = s

  -- SIGTERM in `SignalCallback`.
  unfoldable pub sigterm_callback : StopCalls → Globals → Globals
  unfolding stop
  sigterm_callback calls s =
      if s.terminating then s else (stop c calls (record s { terminating = true })).1

  -- SIGHUP in `SignalCallback`.
  unfoldable pub sighup_callback : RestartCalls → Globals → Globals
  unfolding restart
  sighup_callback calls s = if s.terminating then s else (restart c calls s).1

  -- `ScheduledRestartCallback`: the timer is not valid any more once it has fired.
  unfoldable pub scheduled_restart_callback : RestartCalls → Globals → Globals
  unfolding restart
  scheduled_restart_callback calls s = elim s.restart_timer [
    | none ↦ s
    | some time ↦ (restart c calls (record s { restart_timer = none })).1
  ]

  -- `CFRunLoopRunInMode` for one event.
  unfoldable pub on_event : RunLoopEvent → Globals → Globals
  unfolding sigterm_callback sighup_callback on_watched schedule_delayed_restart power_callback
      scheduled_restart_callback
  on_event (on_sigterm calls) s = sigterm_callback calls s
  on_event (on_sighup calls) s = sighup_callback calls s
  on_event on_other_signal s = s
  on_event (on_child w) s = on_watched c w s
  on_event (on_request now) s = schedule_delayed_restart now s
  on_event (on_power now message) s = power_callback now message s
  on_event (on_timer calls) s = scheduled_restart_callback calls s

  abbrev pub goes_on : Globals → Bool
  goes_on s = not s.terminating && monitoring_child s

  -- The loop while events come, which tests the globals after each. In the code a timer alone does not
  -- end CFRunLoopRunInMode, unless the process that is tracked has died and CFRunLoopStop was called:
  -- where a stop command ends the process and the new start fails, the code tests the globals only
  -- after the next event. The result is the events that are left when the loop ends, none if it still
  -- waits for one.
  unfoldable pub run_loop : List RunLoopEvent → Globals → Option (List RunLoopEvent) × Globals
  unfolding on_event
  run_loop [] s = if goes_on s then (none, s) else (some [], s)
  run_loop (e ∷ es) s =
      let rest = run_loop es (on_event e s) in if goes_on s then rest else (some (e ∷ es), s)

  -- The core of `MainLoop`: the status and the state, with the events that the loop did not handle.
  unfoldable pub main_loop :
      StartCalls → List RunLoopEvent → Globals → ℕ × (Option (List RunLoopEvent) × Globals)
  unfolding start run_loop
  main_loop calls es s =
      let (status, s') = start c calls s in
      if status == 0 then (0, run_loop es s') else (status, (some es, s'))
