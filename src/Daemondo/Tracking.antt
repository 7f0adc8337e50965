-- ===== src/Daemondo/Tracking.antt =====
-- The process that daemondo tracks in the style of pids that `Exec` gives, and its pid file.
use macports.Prelude.{
  ℕ, suc, [], ◌∷◌, List, Bytes, ◌≡◌, ◌⊎◌, refl, ap, sym, ◌∙◌, subst, if◌then◌else◌, ◌&&◌, Bool,
  true, false, false≢true, Bool-cases, inl, inr, some, arith,
}
use macports.Prelude.Int.{ℤ, pos, negsuc}
use macports.Daemondo.Types.{
  style_exec, Config, Globals, absent, holds, Action, launched, ran, signalled, died, slept,
  sigterm, sigkill, no_pid, same_pid, is_known, given, WaitRound, watching, impatient,
}
use macports.Daemondo.PidFile.{pid_in, destroy_pid_file}
use macports.Daemondo.Children.{process_child_death, unmonitor_child, wait_child_death}
use macports.Daemondo.Control.{StopCalls, stop}
use macports.Daemondo.Preserving.{IsQuiet, on_all_watched-keeps}

-- A list of pids without the first one that is a given pid.
unfoldable pub without : ℤ → List ℤ → List ℤ
without pid [] = []
without pid (p ∷ ps) = let rest = without pid ps in if same_pid pid p then ps else p ∷ rest

-- The processes that the trace starts for tracking and does not see die.
unfoldable pub targets : List Action → List ℤ
unfolding without
targets [] = []
targets (launched argv pid ∷ log) = pid ∷ targets log
targets (died pid ∷ log) = without pid (targets log)
targets (a ∷ log) = targets log

-- No process is tracked, none is left, and the pid file names none.
abbrev pub IsStopped : Globals → Type 0
IsStopped s = (s.running_pid ≡ pos 0) × (targets s.log ≡ []) × (pid_in s.file ≡ no_pid)

-- One process is tracked, it is the only one that is left, and the pid file names no other.
abbrev pub IsRunning : ℕ → Globals → Type 0
IsRunning n s =
    (s.running_pid ≡ pos (suc n))
    × (targets s.log ≡ pos (suc n) ∷ [])
    × ((pid_in s.file ≡ no_pid) ⊎ (pid_in s.file ≡ pos (suc n)))

abbrev pub Tracks : ℕ → Bool → Globals → Type 0
Tracks n t s = (s.terminating ≡ t) × (IsStopped s ⊎ IsRunning n s)

-- daemondo with a start-cmd, no stop-cmd, pids from `Exec`, and a pid file that it can remove.
abbrev pub IsExec : Config → Type 0
IsExec c =
    (given c.start_args ≡ true)
    × (given c.stop_args ≡ false)
    × (c.pid_style ≡ style_exec)
    × ((path : Bytes) × (c.pid_file ≡ some path))
    × (c.can_unlink ≡ true)

pub same_pid-eq : (a b : ℤ) → same_pid a b ≡ true → a ≡ b
same_pid-eq (pos a) (pos b) e = ap pos (ground (arith, e))
same_pid-eq (negsuc a) (negsuc b) e = ap negsuc (ground (arith, e))
same_pid-eq (pos a) (negsuc b) e = absurd (false≢true e)
same_pid-eq (negsuc a) (pos b) e = absurd (false≢true e)

same_pid_refl : (a : ℤ) → same_pid a a ≡ true
same_pid_refl (pos a) = ground arith
same_pid_refl (negsuc a) = ground arith

pub is_known-suc : (n : ℕ) → is_known (pos (suc n)) ≡ true
is_known-suc n = ground arith

pub targets-quiet : (a : Action) (log : List Action) → IsQuiet a → targets (a ∷ log) ≡ targets log
unfolding targets
targets-quiet (launched argv pid) log q = absurd q
targets-quiet (ran argv pid) log q = refl
targets-quiet (signalled pid sig) log q = refl
targets-quiet (died pid) log q = absurd q
targets-quiet slept log q = refl

pub pid_in-holds : (n : ℕ) → pid_in (holds (pos (suc n))) ≡ pos (suc n)
pid_in-holds n = ground arith

and_right : (a b : Bool) → (a && b) ≡ true → b ≡ true
and_right true b e = e
and_right false b e = absurd (false≢true e)

pub quiet-Tracks :
    (n : ℕ) (t : Bool) (a : Action) (s : Globals)
    → IsQuiet a
    → Tracks n t s
    → Tracks n t (record s { log = a ∷ s.log })
quiet-Tracks n t a s q (e, inl (r, l, f)) = (e, inl (r, targets-quiet a s.log q ∙ l, f))
quiet-Tracks n t a s q (e, inr (r, l, f)) = (e, inr (r, targets-quiet a s.log q ∙ l, f))

abbrev pub EndsStopped : Bool → Globals → Type 0
EndsStopped t s = (s.terminating ≡ t) × IsStopped s

-- Nothing is tracked, whatever the pid file names.
abbrev pub IsIdle : Bool → Globals → Type 0
IsIdle t s = (s.terminating ≡ t) × (s.running_pid ≡ pos 0) × (targets s.log ≡ [])

abbrev pub Tracked : Bool → Globals → Type 0
Tracked t s = (n : ℕ) × Tracks n t s

-- While the loop goes on, or stopped for good.
abbrev pub IsFollowed : Globals → Type 0
IsFollowed s = Tracked false s ⊎ EndsStopped true s

module _ (c : Config) (h : IsExec c) where
  destroyed : (s : Globals) → destroy_pid_file c s ≡ record s { file = absent }
  unfolding destroy_pid_file
  destroyed s = rw (destroy_pid_file, h.3.1, h.2, h.4) refl

  -- The state once the tracked process has died.
  abbrev after_death : ℤ → Globals → Globals
  after_death child s = record s { running_pid = pos 0; log = died child ∷ s.log; file = absent }

  death-ignored :
      (child : ℤ) (s : Globals)
      → (is_known s.running_pid && same_pid child s.running_pid) ≡ false
      → process_child_death c child s ≡ s
  unfolding process_child_death
  death-ignored child s e = rw (process_child_death, e) refl

  death-taken :
      (child : ℤ) (s : Globals)
      → (is_known s.running_pid && same_pid child s.running_pid) ≡ true
      → process_child_death c child s ≡ after_death child s
  unfolding process_child_death
  death-taken child s e =
      rw (process_child_death, e)
        (destroyed (unmonitor_child (record s { log = died child ∷ s.log })))

  without-only :
      (n : ℕ) (log : List Action)
      → targets log ≡ pos (suc n) ∷ []
      → targets (died (pos (suc n)) ∷ log) ≡ []
  unfolding targets without
  without-only n log l = rw (targets, l, without, same_pid_refl (pos (suc n))) refl

  -- The death of the process that is tracked.
  tracked-dies :
      (n : ℕ) (t : Bool) (s : Globals)
      → Tracks n t s
      → EndsStopped t (process_child_death c (pos (suc n)) s)
  tracked-dies n t s (e, inl (r, l, f)) =
      subst (EndsStopped t)
        (sym (death-ignored (pos (suc n)) s (ap (λ p. is_known p && same_pid (pos (suc n)) p) r)))
        (e, (r, l, f))
  tracked-dies n t s (e, inr (r, l, f)) =
      subst (EndsStopped t)
        (sym (
          death-taken (pos (suc n)) s (
            ap (λ p. is_known p && same_pid (pos (suc n)) p) r
            ∙ (ap (λ b. b && same_pid (pos (suc n)) (pos (suc n))) (is_known-suc n)
                ∙ same_pid_refl (pos (suc n))))))
        (e, (refl, without-only n s.log l, refl))

  known-dies :
      (n : ℕ) (t : Bool) (child : ℤ) (s : Globals)
      → Tracks n t s
      → (is_known s.running_pid && same_pid child s.running_pid) ≡ true
      → Tracks n t (process_child_death c child s)
  known-dies n t child s (e, inl (r, l, f)) k =
      absurd (false≢true (sym (ap (λ p. is_known p && same_pid child p) r) ∙ k))
  known-dies n t child s (e, inr (r, l, f)) k =
      let same = same_pid-eq child s.running_pid (and_right (is_known s.running_pid) _ k) ∙ r in
      let (e', stopped) = tracked-dies n t s (e, inr (r, l, f)) in
      subst (λ p. Tracks n t (process_child_death c p s)) (sym same) (e', inl stopped)

  -- Any death that is seen.
  pub dies-Tracks :
      (n : ℕ) (t : Bool) (child : ℤ) (s : Globals)
      → Tracks n t s
      → Tracks n t (process_child_death c child s)
  dies-Tracks n t child s k =
      let known = is_known s.running_pid && same_pid child s.running_pid in
      elim (Bool-cases known) [
        | inr e ↦ subst (Tracks n t) (sym (death-ignored child s e)) k
        | inl e ↦ known-dies n t child s k e
      ]

  -- The wait for the tracked process ends with its death.
  wait-stops :
      (n : ℕ) (t : Bool) (rounds : List WaitRound) (s : Globals)
      → Tracks n t s
      → EndsStopped t (wait_child_death c (pos (suc n)) rounds s)
  unfolding wait_child_death
  wait-stops n t [] s k = tracked-dies n t s k
  wait-stops n t (watching ws ∷ rounds) s k =
      wait-stops n t rounds _
        (on_all_watched-keeps c (Tracks n t) (dies-Tracks n t) (quiet-Tracks n t) ws s k)
  wait-stops n t (impatient ∷ rounds) s k =
      wait-stops n t rounds _ (quiet-Tracks n t (signalled (pos (suc n)) sigkill) s tt k)

  stop-none :
      (calls : StopCalls) (s : Globals) → is_known s.running_pid ≡ false → (stop c calls s).1 ≡ s
  unfolding stop
  stop-none calls s e = rw (stop, h.1, e) refl

  stop-waits :
      (calls : StopCalls) (s : Globals) (pid : ℤ)
      → s.running_pid ≡ pid
      → is_known pid ≡ true
      → (stop c calls s).1
        ≡ wait_child_death c pid calls.stop_rounds
            (record s { log = signalled s.running_pid sigterm ∷ s.log })
  unfolding stop
  stop-waits calls s pid r e =
      let k = ap is_known r ∙ e in
      rw (stop, h.1, k)
        (ap
          (λ p.
            wait_child_death c p calls.stop_rounds
              (record s { log = signalled s.running_pid sigterm ∷ s.log }))
          r)

  -- `Stop` without a stop-cmd.
  pub stop-stops :
      (n : ℕ) (t : Bool) (calls : StopCalls) (s : Globals)
      → Tracks n t s
      → EndsStopped t ((stop c calls s).1)
  stop-stops n t calls s (e, inl (r, l, f)) =
      subst (EndsStopped t) (sym (stop-none calls s (ap is_known r))) (e, (r, l, f))
  stop-stops n t calls s (e, inr (r, l, f)) =
      subst (EndsStopped t) (sym (stop-waits calls s (pos (suc n)) r (is_known-suc n))) (
        wait-stops n t calls.stop_rounds _
          (quiet-Tracks n t (signalled s.running_pid sigterm) s tt (e, inr (r, l, f))))
