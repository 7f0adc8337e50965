-- ===== src/Daemondo/Ended.antt =====
-- What is left when daemondo ends, in the style of pids that `Exec` gives.
use macports.Prelude.{
  ℕ, suc, [], ◌∷◌, List, ◌≡◌, ◌⊎◌, ◌≢◌, refl, ap, sym, ◌∙◌, subst, if◌then◌else◌, ◌&&◌, ◌==◌, not,
  Bool, true, false, false≢true, Bool-cases, inl, inr, Option, none, some, arith,
}
use macports.Prelude.Int.{ℤ, pos}
use macports.Daemondo.Types.{Config, Globals, StartCalls, no_pid, same_pid, launched, is_known}
use macports.Daemondo.Children.{monitoring_child}
use macports.Daemondo.Control.{start, track}
use macports.Daemondo.Loop.{RunLoopEvent, on_event, run_loop, main_loop, goes_on}
use macports.Daemondo.Tracking.{IsExec, IsStopped, IsRunning, IsIdle, IsFollowed}
use macports.Daemondo.Following.{
  start-Tracked, start-exec, deleted, exec_async, discover-exec, run_loop-IsFollowed,
}

abbrev is_some {ℓ} : {A : Type ℓ} → Option A → Bool
is_some none = false
is_some (some a) = true

none≢some {ℓ} : {A : Type ℓ} {a : A} → none ≢ some a
none≢some e = false≢true (ap is_some e)

suc_pid : (n : ℕ) → same_pid (pos (suc n)) (pos 0) ≢ true
suc_pid n e = ground (arith, e)

either_when {ι ℓ κ} :
    {F : Type ι} {S : Type ℓ} (P : S → Type κ) (b : Bool) (x y : F × S)
    → (b ≡ true → P x.1)
    → (b ≡ false → P y.1)
    → P ((if b then x else y).1)
either_when P true x y h k = h refl
either_when P false x y h k = k refl

stop_when :
    (P : Globals → Type 0) (b : Bool) (x : Option (List RunLoopEvent) × Globals)
    (es left : List RunLoopEvent) (s : Globals)
    → (b ≡ true → x.0 ≡ some left → P x.1)
    → (b ≡ false → P s)
    → (if b then x else (some es, s)).0 ≡ some left
    → P ((if b then x else (some es, s)).1)
stop_when P true x es left s h k e = h refl e
stop_when P false x es left s h k e = k refl

-- A loop that has ended does not go on.
abbrev DoesNotGoOn : Config → Globals → Type 0
DoesNotGoOn c s = goes_on c s ≡ false

ended :
    (c : Config) (es left : List RunLoopEvent) (s : Globals)
    → (run_loop c es s).0 ≡ some left
    → DoesNotGoOn c ((run_loop c es s).1)
unfolding run_loop
ended c [] left s e =
    stop_when (DoesNotGoOn c) (goes_on c s) (none, s) [] left s (λ g n. absurd (none≢some n))
      (λ g. g) e
ended c (x ∷ es) left s e =
    stop_when (DoesNotGoOn c) (goes_on c s) (run_loop c es (on_event c x s)) (x ∷ es) left s
      (λ g n. ended c es left (on_event c x s) n) (λ g. g) e

not-false : (b : Bool) → not b ≡ false → b ≡ true
not-false true e = refl
not-false false e = sym e

-- A followed state in which the loop does not go on.
followed-IsStopped :
    (c : Config) (h : IsExec c) (s : Globals) → IsFollowed s → DoesNotGoOn c s → IsStopped s
followed-IsStopped c h s (inr (e, k)) g = k
followed-IsStopped c h s (inl (n, (e, inl k))) g = k
followed-IsStopped c h s (inl (n, (e, inr (r, l, f)))) g =
    let zero_pid =
      not-false (same_pid s.running_pid (pos 0))
        (sym (ap (λ b. not b && monitoring_child s) e) ∙ g) in
    absurd (suc_pid n (sym (ap (λ p. same_pid p (pos 0)) r) ∙ zero_pid))

module _ (c : Config) (h : IsExec c) where
  abbrev Follows : Globals → Type 0
  Follows s = (n : ℕ) × (IsStopped s ⊎ IsRunning n s)

  followed : (s : Globals) → IsFollowed s → Follows s
  followed s (inl (n, k)) = (n, k.1)
  followed s (inr k) = (0, inl k.1)

  -- From a start at which nothing is tracked, whatever the operating system answers and whatever
  -- happens, of the processes that daemondo has launched for tracking at most one has not been seen to
  -- die, it is the one that is tracked, and the pid file names no other: with a start-cmd, no stop-cmd,
  -- pids from `Exec`, and a pid file that can be removed.
  pub main_loop-follows :
      (calls : StartCalls) (es : List RunLoopEvent) (s : Globals)
      → IsIdle false s
      → (n : ℕ) × (IsStopped ((main_loop c calls es s).1.1)
          ⊎ IsRunning n ((main_loop c calls es s).1.1))
  unfolding main_loop
  main_loop-follows calls es s k =
      let started = start-Tracked c h false calls s k in
      either_when (λ x. Follows (x.1)) ((start c calls s).0 == 0)
        (0, run_loop c es ((start c calls s).1))
        ((start c calls s).0, (some es, (start c calls s).1))
        (λ e.
          followed ((run_loop c es ((start c calls s).1)).1)
            (run_loop-IsFollowed c h es ((start c calls s).1) (inl started)))
        (λ e. followed ((start c calls s).1) (inl started))

  track-status : (b : Bool) (pid : ℤ) (s : Globals) → (track c b pid s).0 ≡ 0
  unfolding track
  track-status b pid s = elim (Bool-cases (is_known pid)) [
    | inl k ↦ rw (track, k) refl
    | inr k ↦ rw (track, k) refl
  ]

  -- A start that fails leaves nothing behind.
  start-fails :
      (calls : StartCalls) (s : Globals)
      → IsIdle false s
      → ((start c calls s).0 == 0) ≡ false
      → IsStopped ((start c calls s).1)
  start-fails calls s (e, r, l) z =
      let (file, same, f) = deleted c h s in
      let s' = record s { file = file } in
      elim (exec_async c h c.start_args calls.exec_calls s') [
        | inl x ↦
            subst (λ y. IsStopped (y.1)) (sym (start-exec c h calls s s' (no_pid, s') same x))
              (r, l, f)
        | inr (k, argv, x) ↦
            let s'' = record s' { log = launched argv (pos (suc k)) ∷ s.log } in
            let works =
              ap (λ y. y.0 == 0)
                (start-exec c h calls s s' (pos (suc k), s'') same x
                  ∙ discover-exec c h calls (pos (suc k)) s'')
              ∙ ap (λ n. n == 0) (track-status calls.can_write (pos (suc k)) s'') in
            absurd (false≢true (sym z ∙ works))
      ]

  -- Started with nothing tracked, whenever daemondo ends, by a failed start, the death of the process
  -- or a SIGTERM, every process that it has launched for tracking has been seen to die, none is tracked,
  -- and the pid file names none: with a start-cmd, no stop-cmd, pids from `Exec`, and a pid file that can
  -- be removed.
  pub main_loop-IsStopped :
      (calls : StartCalls) (es left : List RunLoopEvent) (s : Globals)
      → IsIdle false s
      → (main_loop c calls es s).1.0 ≡ some left
      → IsStopped ((main_loop c calls es s).1.1)
  unfolding main_loop
  main_loop-IsStopped calls es left s k =
      let started = start-Tracked c h false calls s k in
      let s' = (start c calls s).1 in
      either_when (λ x. x.0 ≡ some left → IsStopped (x.1)) ((start c calls s).0 == 0)
        (0, run_loop c es s') ((start c calls s).0, (some es, s'))
        (λ e n.
          followed-IsStopped c h ((run_loop c es s').1)
            (run_loop-IsFollowed c h es s' (inl started)) (ended c es left s' n))
        (λ e n. start-fails calls s k e)
