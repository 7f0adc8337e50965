-- ===== src/Daemondo/Ending.antt =====
-- The end of the core loop of daemondo.
use macports.Prelude.{
  ◌≤◌, [], ◌∷◌, ◌++◌, List, length, ◌≡◌, refl, ◌&&◌, true, Bool-cases, inl, inr, Option-cases, some,
  arith, length-append,
}
use macports.Prelude.Int.{ℤ}
use macports.Daemondo.Types.{Config, Globals, absent, died, is_known, same_pid}
use macports.Daemondo.PidFile.{destroy_pid_file, removes_pid_file}
use macports.Daemondo.Children.{process_child_death, unmonitor_child}
use macports.Daemondo.Control.{StopCalls}
use macports.Daemondo.Loop.{RunLoopEvent, on_sigterm, sigterm_callback, on_event, run_loop, goes_on}
use macports.Daemondo.Preserving.{either_state, stop-keeps}

-- Whether or not the pid file is removed.
destroy_pid_file-either {κ} :
    (c : Config) (P : Globals → Type κ) (s : Globals)
    → P s
    → P (record s { file = absent })
    → P (destroy_pid_file c s)
unfolding destroy_pid_file
destroy_pid_file-either c P s h k = elim (Option-cases c.pid_file) [
  | inl n ↦ rw (destroy_pid_file, n) h
  | inr (path, n) ↦
      rw (destroy_pid_file, n)
        (either_state P (removes_pid_file c.pid_style) _ s
          (either_state P c.can_unlink (record s { file = absent }) s k h) h)
]

-- It goes on terminating.
abbrev IsTerminating : Globals → Type 0
IsTerminating s = s.terminating ≡ true

process_child_death-IsTerminating :
    (c : Config) (child : ℤ) (s : Globals)
    → IsTerminating s
    → IsTerminating (process_child_death c child s)
unfolding process_child_death
process_child_death-IsTerminating c child s h =
    either_state IsTerminating (is_known s.running_pid && same_pid child s.running_pid) _ _
      (destroy_pid_file-either c IsTerminating
        (unmonitor_child (record s { log = died child ∷ s.log })) h h)
      h

sigterm_callback-IsTerminating :
    (c : Config) (calls : StopCalls) (s : Globals) → IsTerminating (sigterm_callback c calls s)
unfolding sigterm_callback
sigterm_callback-IsTerminating c calls s = elim (Bool-cases s.terminating) [
  | inl t ↦ rw (sigterm_callback, t) refl
  | inr t ↦
      rw (sigterm_callback, t)
        (stop-keeps c IsTerminating (process_child_death-IsTerminating c) (λ a s' q h. h) calls
          (λ g s' h. destroy_pid_file-either c IsTerminating (unmonitor_child s') h h)
          (record s { terminating = true }) refl)
]

run_loop-terminating :
    (c : Config) (es : List RunLoopEvent) (s : Globals)
    → IsTerminating s
    → (run_loop c es s).0 ≡ some es
unfolding run_loop
run_loop-terminating c [] s h = rw (run_loop, h) refl
run_loop-terminating c (e ∷ es) s h = rw (run_loop, h) refl

-- Whatever happens before and after, a SIGTERM ends the loop, in any style and with any answers of
-- the operating system: the events behind it are never handled.
pub run_loop-sigterm :
    (c : Config) (before after : List RunLoopEvent) (calls : StopCalls) (s : Globals)
    → (left : List RunLoopEvent) × ((run_loop c (before ++ on_sigterm calls ∷ after) s).0
        ≡ some left)
      × (length after ≤ length left)
unfolding run_loop on_event
run_loop-sigterm c [] after calls s = elim (Bool-cases (goes_on c s)) [
  | inl g ↦ (
    after,
    rw (run_loop, g)
        (run_loop-terminating c after (sigterm_callback c calls s)
          (sigterm_callback-IsTerminating c calls s)),
    omega arith,
  )
  | inr g ↦ (on_sigterm calls ∷ after, rw (run_loop, g) refl, omega arith)
]
run_loop-sigterm c (e ∷ before) after calls s = elim (Bool-cases (goes_on c s)) [
  | inl g ↦
      let (left, same, short) = run_loop-sigterm c before after calls (on_event c e s) in
      (left, rw (run_loop, g) same, short)
  | inr g ↦ (
    e ∷ (before ++ on_sigterm calls ∷ after),
    rw (run_loop, g) refl,
    omega (arith, length-append before (on_sigterm calls ∷ after)),
  )
]
