-- ===== src/Daemondo/Requests.antt =====
-- Requests for a restart of the daemon, which daemondo joins into one.
use macports.Prelude.{ℕ, ◌+◌, [], ◌∷◌, List, ◌≡◌, refl, ap, none, some}
use macports.Daemondo.Types.{Config, Globals}
use macports.Daemondo.Control.{RestartCalls, restart}
use macports.Daemondo.Loop.{
  schedule_restart_for_time, schedule_delayed_restart, scheduled_restart_callback, RunLoopEvent,
  on_request, on_timer, on_event,
}

-- The loop's handling of several events.
unfoldable pub on_events : Config → List RunLoopEvent → Globals → Globals
unfolding on_event
on_events c [] s = s
on_events c (e ∷ es) s = on_events c es (on_event c e s)

-- Requests at the given times, the first one first.
abbrev pub requests : List ℕ → List RunLoopEvent
requests [] = []
requests (t ∷ ts) = on_request t ∷ requests ts

abbrev pub last_of : ℕ → List ℕ → ℕ
last_of t [] = t
last_of t (u ∷ ts) = last_of u ts

requests-timer :
    (c : Config) (t : ℕ) (ts : List ℕ) (s : Globals)
    → on_events c (requests (t ∷ ts)) s
      ≡ record s { restart_timer = some (last_of t ts + c.restart_hysteresis) }
unfolding on_events on_event schedule_delayed_restart schedule_restart_for_time
requests-timer c t [] s = refl
requests-timer c t (u ∷ ts) s = requests-timer c u ts (on_event c (on_request t) s)

-- However many requests come before the timer fires, what follows is one restart, of the state in
-- which no request was made and no timer is set.
requests-once :
    (c : Config) (t : ℕ) (ts : List ℕ) (calls : RestartCalls) (s : Globals)
    → on_event c (on_timer calls) (on_events c (requests (t ∷ ts)) s)
      ≡ (restart c calls (record s { restart_timer = none })).1
unfolding on_event scheduled_restart_callback
requests-once c t ts calls s = ap (scheduled_restart_callback c calls) (requests-timer c t ts s)
