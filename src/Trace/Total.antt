-- ===== src/Trace/Total.antt =====
-- The loops of `__darwintrace_is_in_sandbox` and `__darwintrace_sandbox_check` in
-- base/src/darwintracelib1.0/darwintrace.c end.
use macports.Prelude.{
  ℕ, zero, suc, ◌<◌, List, [], ◌∷◌, Bytes, Bool, true, false, ◌==◌, ◌&&◌, if◌then◌else◌, length,
  drop, Option, none, some, arith, codes, not,
}
use macports.Trace.Rules.{Next, finished, entry, aborted, past_end, filemap_iter, path_begins_with}
use macports.Trace.Check.{
  Flags, Kind, directory, symlink, other, World, Verdict, verdict, abort, overrun, out_of_fuel,
  Dependency, granted, foreign, unknown, no_answer, on_dependency, on_match, check_bounds, is_root,
  is_directory, report, sandbox_violation, dependency_check, sandbox_check,
}
use macports.Trace.Iterator.{IsShorter, iter-IsShorter}
use macports.Trace.Buffer.{Buffer, add_slashes, norm_path, split_slash, walk}
use macports.Trace.Lookup.{
  after, if_allowed, expand, check_walked, strip_fork, resolve_vol, follow, is_in_sandbox,
  from_kernel,
}

abbrev pub IsDone : Verdict → Type 0
IsDone out_of_fuel = ⊥
IsDone _ = Unit

dependency-IsDone :
    (flags : Flags) (path : Bytes) (d : Dependency) → IsDone (on_dependency flags path d)
dependency-IsDone flags path granted = tt
dependency-IsDone flags path foreign = tt
dependency-IsDone flags path unknown = tt
dependency-IsDone flags path no_answer = tt

match-IsDone :
    (w : World) (flags : Flags) (path : Bytes) (command : ℕ)
    → IsDone (on_match w flags path command)
unfolding on_match
match-IsDone w flags path command = go (command == 0) (command == 2) (command == 3)
  where
    go :
        (a b c : Bool)
        → IsDone (
            if a
            then verdict true []
            else if b
            then on_dependency flags path (dependency_check w path)
            else if c
            then verdict false (report flags sandbox_violation path)
            else abort)
    go true b c = tt
    go false true c = dependency-IsDone flags path (dependency_check w path)
    go false false true = tt
    go false false false = tt

check_bounds-IsDone :
    (w : World) (flags : Flags) (path : Bytes) (fuel : ℕ) (bounds : Bytes)
    → length bounds < fuel
    → IsDone (check_bounds w flags path fuel bounds)
unfolding check_bounds
check_bounds-IsDone w flags path zero bounds h = absurd (omega arith)
check_bounds-IsDone w flags path (suc fuel) bounds h =
    go (filemap_iter bounds) (iter-IsShorter bounds)
      (λ rest. check_bounds-IsDone w flags path fuel rest)
  where
    go :
        (next : Next)
        → IsShorter (length bounds) next
        → ((rest : Bytes) → length rest < fuel → IsDone (check_bounds w flags path fuel rest))
        → IsDone (elim next [
          | finished ↦ verdict false (report flags sandbox_violation path)
          | entry prefix command rest ↦ elim (path_begins_with path prefix) [
            | true ↦ on_match w flags path command
            | false ↦ check_bounds w flags path fuel rest
          ]
          | aborted ↦ abort
          | past_end ↦ overrun
        ])
    go finished s ih = tt
    go (entry prefix command rest) s ih =
        elim (path_begins_with path prefix)
          as (λ b. IsDone (elim b [
            | true ↦ on_match w flags path command
            | false ↦ check_bounds w flags path fuel rest
          ])) [ true ↦ match-IsDone w flags path command | false ↦ ih rest (omega arith) ]
    go aborted s ih = tt
    go past_end s ih = tt

sandbox_check-IsDone :
    (w : World) (flags : Flags) (bounds path : Bytes) → IsDone (sandbox_check w flags bounds path)
unfolding sandbox_check
sandbox_check-IsDone w flags bounds path =
    go (is_root path) (flags.allow_dir && is_directory (w.lstat path))
  where
    go :
        (a b : Bool)
        → IsDone (
            if a
            then verdict true []
            else if b
            then verdict true []
            else check_bounds w flags path (suc (length bounds)) bounds)
    go true b = tt
    go false true = tt
    go false false = check_bounds-IsDone w flags path (suc (length bounds)) bounds (omega arith)

after-IsDone : (log : List Bytes) (v : Verdict) → IsDone v → IsDone (after log v)
after-IsDone log (verdict ok log') h = tt
after-IsDone log abort h = tt
after-IsDone log overrun h = tt
after-IsDone log out_of_fuel h = h

allowed-IsDone :
    (v : Verdict) (next : List Bytes → Verdict)
    → IsDone v
    → ((log : List Bytes) → IsDone (next log))
    → IsDone (if_allowed v next)
allowed-IsDone (verdict true log) next h k = k log
allowed-IsDone (verdict false log) next h k = tt
allowed-IsDone abort next h k = tt
allowed-IsDone overrun next h k = tt
allowed-IsDone out_of_fuel next h k = h

follow-IsDone :
    (w : World) (flags : Flags) (bounds : Bytes) (rounds : ℕ) (b : Buffer)
    → IsDone (follow w flags bounds rounds b)
unfolding follow
follow-IsDone w flags bounds zero b =
    sandbox_check-IsDone w flags bounds (norm_path (add_slashes b))
follow-IsDone w flags bounds (suc rounds) b =
    go (not flags.follow_syms) (w.lstat (norm_path (add_slashes b)))
      (follow-IsDone w flags bounds rounds)
      (sandbox_check-IsDone w flags bounds (norm_path (add_slashes b)))
  where
    target :
        (o : Option Buffer) (log : List Bytes)
        → ((b' : Buffer) → IsDone (follow w flags bounds rounds b'))
        → IsDone (elim o [ none ↦ overrun | some b' ↦ after log (follow w flags bounds rounds b') ])
    target none log ih = tt
    target (some b') log ih = after-IsDone log _ (ih b')

    go :
        (skip : Bool) (kind : Option Kind)
        → ((b' : Buffer) → IsDone (follow w flags bounds rounds b'))
        → IsDone (sandbox_check w flags bounds (norm_path (add_slashes b)))
        → IsDone (
            if skip then sandbox_check w flags bounds (norm_path (add_slashes b)) else (elim kind [
              | some (symlink t) ↦
                  if_allowed (sandbox_check w flags bounds (norm_path (add_slashes b))) (λ log.
                    elim (expand t (add_slashes b)) [
                      | none ↦ overrun
                      | some b' ↦ after log (follow w flags bounds rounds b')
                    ])
              | _ ↦ sandbox_check w flags bounds (norm_path (add_slashes b))
            ]))
    go true kind ih h = h
    go false none ih h = h
    go false (some directory) ih h = h
    go false (some other) ih h = h
    go false (some (symlink t)) ih h =
        allowed-IsDone _ _ h (λ log. target (expand t (add_slashes b)) log ih)

walked-IsDone :
    (w : World) (flags : Flags) (bounds : Bytes) (o : Option Buffer)
    → IsDone (check_walked w flags bounds o)
unfolding check_walked
walked-IsDone w flags bounds none = tt
walked-IsDone w flags bounds (some b) =
    follow-IsDone w flags bounds 9 (resolve_vol w (strip_fork b))

-- The check of a path ends for every path, every list of bounds, well-formed or not, and every file
-- system, however its links point to each other.
pub lookup-IsDone :
    (w : World) (flags : Flags) (bounds : Option Bytes) (memory : Bytes) (path : Option Bytes)
    → IsDone (is_in_sandbox w flags bounds memory path)
unfolding is_in_sandbox
lookup-IsDone w flags none memory path = tt
lookup-IsDone w flags (some bounds) memory none = tt
lookup-IsDone w flags (some bounds) memory (some []) = tt
lookup-IsDone w flags (some bounds) memory (some (c ∷ path)) =
    go (c == b'/') (w.full_path (codes "."))
  where
    go :
        (slash : Bool) (cwd : Option Bytes)
        → IsDone (
            if slash
            then check_walked w flags bounds (
                walk (split_slash path) (record { gap = []; parts = []; rest = 0 ∷ drop 1 memory }))
            else (elim cwd [
              | none ↦ abort
              | some d ↦
                  check_walked w flags bounds
                    (walk (split_slash (c ∷ path)) (from_kernel d (0 ∷ drop 1 memory)))
            ]))
    go true cwd = walked-IsDone w flags bounds _
    go false none = tt
    go false (some d) = walked-IsDone w flags bounds _
