-- ===== src/Daemondo/Following.antt =====
-- The events that daemondo handles, one after the other, in the style of pids that `Exec` gives.
use macports.Prelude.{
  ℕ, suc, [], ◌∷◌, List, Bytes, ◌≡◌, ◌⊎◌, refl, ap, sym, ◌∙◌, subst, if◌then◌else◌, ◌&&◌, not, Bool,
  true, false, false≢true, Bool-cases, inl, inr, Option, Option-cases, none, some,
}
use macports.Prelude.Int.{ℤ, pos}
use macports.Daemondo.Types.{
  Config, Globals, File, absent, holds, Action, launched, slept, no_pid, same_pid, given, Watched,
  ExecCalls, StartCalls,
}
use macports.Daemondo.PidFile.{pid_in, create_pid_file, delete_preexisting_pid_file}
use macports.Daemondo.Children.{monitoring_child, on_watched, exec}
use macports.Daemondo.Control.{
  waits_for_command, StopCalls, RestartCalls, start, stop, restart, discover, track,
}
use macports.Daemondo.Loop.{RunLoopEvent, sigterm_callback, run_loop, goes_on}
use macports.Daemondo.Preserving.{either, on_watched-keeps, exec_sync-keeps, run_loop-keeps}
use macports.Daemondo.Tracking.{
  Tracks, IsExec, IsIdle, Tracked, IsFollowed, targets, dies-Tracks, stop-stops, quiet-Tracks,
  targets-quiet, is_known-suc, pid_in-holds, same_pid-eq,
}

module _ (c : Config) (h : IsExec c) where
  -- The pid file after the removal of an old one.
  pub deleted :
      (s : Globals)
      → (file : File) × (delete_preexisting_pid_file c s ≡ record s { file = file })
        × (pid_in file ≡ no_pid)
  unfolding delete_preexisting_pid_file
  deleted s = elim (Bool-cases (same_pid (pid_in s.file) no_pid)) [
    | inl e ↦ (s.file, rw (delete_preexisting_pid_file, h.3.1, e) refl, same_pid-eq _ _ e)
    | inr e ↦ (absent, rw (delete_preexisting_pid_file, h.3.1, e, h.4) refl, refl)
  ]

  created :
      (b : Bool) (s : Globals)
      → (create_pid_file c b s ≡ s)
        ⊎ (create_pid_file c b s ≡ record s { file = holds s.running_pid })
  unfolding create_pid_file
  created true s = inr (rw (create_pid_file, h.3.1, h.2) refl)
  created false s = inl (rw (create_pid_file, h.3.1, h.2) refl)

  track-Tracked :
      (b t : Bool) (n : ℕ) (s : Globals)
      → s.terminating ≡ t
      → targets s.log ≡ pos (suc n) ∷ []
      → pid_in s.file ≡ no_pid
      → Tracked t ((track c b (pos (suc n)) s).1)
  unfolding track
  track-Tracked b t n s e l f =
      let tracked = record s { running_pid = pos (suc n) } in
      rw (track, is_known-suc n)
        (elim (created b tracked) [
          | inl same ↦ subst (Tracked t) (sym same) (n, (e, inr (refl, l, inl f)))
          | inr same ↦ subst (Tracked t) (sym same) (n, (e, inr (refl, l, inr (pid_in-holds n))))
        ])

  pub exec_async :
      (args : Option (List Bytes)) (calls : ExecCalls) (s : Globals)
      → (exec c args false calls s ≡ (no_pid, s))
        ⊎ ((k : ℕ) × (argv : List Bytes) × (exec c args false calls s
              ≡ (pos (suc k), record s { log = launched argv (pos (suc k)) ∷ s.log })))
  unfolding exec
  exec_async none calls s = inl refl
  exec_async (some []) calls s = inl refl
  exec_async (some ([] ∷ args)) calls s = inl refl
  exec_async (some ((a ∷ name) ∷ args)) calls s = elim (Option-cases calls.fork) [
    | inl f ↦ inl (rw (exec, f) refl)
    | inr (k, f) ↦ inr (k, (a ∷ name) ∷ args, rw (exec, f) refl)
  ]

  pub discover-exec :
      (calls : StartCalls) (pid : ℤ) (s : Globals)
      → discover c calls pid s ≡ track c calls.can_write pid s
  unfolding discover
  discover-exec calls pid s = rw (discover, h.2) refl

  launched-targets :
      (argv : List Bytes) (k : ℕ) (log : List Action)
      → targets log ≡ []
      → targets (launched argv (pos (suc k)) ∷ log) ≡ pos (suc k) ∷ []
  unfolding targets
  launched-targets argv k log l = ap (λ ps. pos (suc k) ∷ ps) l

  pub start-exec :
      (calls : StartCalls) (s s' : Globals) (x : ℤ × Globals)
      → delete_preexisting_pid_file c s ≡ s'
      → exec c c.start_args false calls.exec_calls s' ≡ x
      → start c calls s ≡ (if same_pid x.0 no_pid then (2, x.1) else discover c calls x.0 x.1)
  unfolding start
  start-exec calls s s' x d e = rw (start, h.0, ap waits_for_command h.2, d, e) refl

  pub start-Tracked :
      (t : Bool) (calls : StartCalls) (s : Globals) → IsIdle t s → Tracked t ((start c calls s).1)
  start-Tracked t calls s (e, r, l) =
      let (file, same, f) = deleted s in
      let s' = record s { file = file } in
      elim (exec_async c.start_args calls.exec_calls s') [
        | inl x ↦
            subst (λ y. Tracked t (y.1)) (sym (start-exec calls s s' (no_pid, s') same x))
              (0, (e, inl (r, l, f)))
        | inr (k, argv, x) ↦
            let s'' = record s' { log = launched argv (pos (suc k)) ∷ s.log } in
            subst (λ y. Tracked t (y.1))
              (sym (
                start-exec calls s s' (pos (suc k), s'') same x
                ∙ discover-exec calls (pos (suc k)) s''))
              (track-Tracked calls.can_write t k s'' e (launched-targets argv k s.log l) f)
      ]

  restart-Tracked :
      (t : Bool) (calls : RestartCalls) (s : Globals)
      → Tracked t s
      → Tracked t ((restart c calls s).1)
  unfolding restart
  restart-Tracked t calls s (n, k) = elim (Bool-cases (given c.restart_args)) [
    | inl g ↦
        let kept =
          exec_sync-keeps c (Tracks n t) (dies-Tracks c h n t) (quiet-Tracks n t) c.restart_args
            calls.restart_exec s k in
        let (pid, s') = exec c c.restart_args true calls.restart_exec s in
        rw (restart, g)
          (either (Tracked t) (same_pid pid no_pid) (2, s') (0, s') (n, kept) (n, kept))
    | inr g ↦
        let (e, (r, l, f)) = stop-stops c h n t calls.restart_stop s k in
        let stopped = (stop c calls.restart_stop s).1 in
        rw (restart, g)
          (start-Tracked t calls.restart_start (record stopped { log = slept ∷ stopped.log })
            (e, r, targets-quiet slept stopped.log tt ∙ l))
  ]

  active-IsFollowed : (s : Globals) → IsFollowed s → goes_on c s ≡ true → Tracked false s
  active-IsFollowed s (inl k) g = k
  active-IsFollowed s (inr (e, k)) g =
      absurd (false≢true (sym (ap (λ b. not b && monitoring_child s) e) ∙ g))

  watches-IsFollowed : (w : Watched) (s : Globals) → Tracked false s → IsFollowed (on_watched c w s)
  watches-IsFollowed w s (n, k) = inl (
    n,
    on_watched-keeps c (Tracks n false) (dies-Tracks c h n false) (quiet-Tracks n false) w s k,
  )

  terminates-IsFollowed :
      (calls : StopCalls) (s : Globals) → Tracked false s → IsFollowed (sigterm_callback c calls s)
  unfolding sigterm_callback
  terminates-IsFollowed calls s (n, (e, k)) =
      rw (sigterm_callback, e)
        (inr (stop-stops c h n true calls (record s { terminating = true }) (refl, k)))

  times-Tracked :
      (t : Option ℕ) (s : Globals)
      → Tracked false s
      → Tracked false (record s { restart_timer = t })
  times-Tracked t s k = k

  pub run_loop-IsFollowed :
      (es : List RunLoopEvent) (s : Globals) → IsFollowed s → IsFollowed ((run_loop c es s).1)
  run_loop-IsFollowed es s k =
      run_loop-keeps c (Tracked false) IsFollowed (λ s' k'. inl k') active-IsFollowed
        watches-IsFollowed (λ calls s' k'. inl (restart-Tracked false calls s' k'))
        terminates-IsFollowed times-Tracked es s k
