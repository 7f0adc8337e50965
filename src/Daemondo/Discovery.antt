-- ===== src/Daemondo/Discovery.antt =====
-- The pid that daemondo finds in a pid file.
use macports.Prelude.{
  [], ◌∷◌, ◌++◌, List, All, ◌≡◌, refl, ap, sym, ◌∙◌, ◌&&◌, not, Bool, true, false, false≢true,
  Bool-cases, inl, inr, Option-cases,
}
use macports.Prelude.Int.{ℤ, pos}
use macports.Daemondo.Types.{
  PidStyle, style_unknown, style_none, style_exec, style_file_auto, style_file_clean, Config,
  Globals, File, Poll, StartCalls, no_pid, same_pid, is_known, is_file_style,
}
use macports.Daemondo.PidFile.{
  check_for_valid_pid_file, wait_for_valid_pid_file, create_pid_file, writes_pid_file,
}
use macports.Daemondo.Control.{discover, track}

-- A look that finds no process.
abbrev pub IsVain : Poll → Type 0
IsVain poll = same_pid (check_for_valid_pid_file poll) no_pid ≡ true

wait_for_valid_pid_file-first :
    (vain more : List Poll) (poll last : Poll)
    → All IsVain vain
    → same_pid (check_for_valid_pid_file poll) no_pid ≡ false
    → wait_for_valid_pid_file (vain ++ poll ∷ more) last
      ≡ (check_for_valid_pid_file poll, poll.seen)
unfolding wait_for_valid_pid_file
wait_for_valid_pid_file-first [] more poll last h e = rw (wait_for_valid_pid_file, e) refl
wait_for_valid_pid_file-first (v ∷ vain) more poll last h e =
    rw (wait_for_valid_pid_file, h.0) (wait_for_valid_pid_file-first vain more poll last h.1 e)

file_style-writes : (style : PidStyle) → is_file_style style ≡ true → writes_pid_file style ≡ false
file_style-writes style_file_auto e = refl
file_style-writes style_file_clean e = refl
file_style-writes style_unknown e = absurd (false≢true e)
file_style-writes style_none e = absurd (false≢true e)
file_style-writes style_exec e = absurd (false≢true e)

create_pid_file-left :
    (c : Config) (b : Bool) (s : Globals)
    → is_file_style c.pid_style ≡ true
    → create_pid_file c b s ≡ s
unfolding create_pid_file
create_pid_file-left c b s e = elim (Option-cases c.pid_file) [
  | inl n ↦ rw (create_pid_file, n) refl
  | inr (path, n) ↦ rw (create_pid_file, n, file_style-writes c.pid_style e) refl
]

and_false : (a : Bool) → (a && false) ≡ false
and_false true = refl
and_false false = refl

and_not : (a b : Bool) → b ≡ true → (a && not b) ≡ false
and_not a true e = and_false a
and_not a false e = absurd (false≢true e)

known-pid : (pid : ℤ) → is_known pid ≡ true → same_pid pid no_pid ≡ false
known-pid pid e = elim (Bool-cases (same_pid pid no_pid)) [
  | inr n ↦ n
  | inl y ↦
      absurd (false≢true (sym (and_not (not (same_pid pid (pos 0))) (same_pid pid no_pid) y) ∙ e))
]

discover-found :
    (c : Config) (calls : StartCalls) (pid found : ℤ) (file : File) (s : Globals)
    → is_file_style c.pid_style ≡ true
    → wait_for_valid_pid_file calls.polls calls.last_poll ≡ (found, file)
    → same_pid found no_pid ≡ false
    → discover c calls pid s ≡ track c calls.can_write found (record s { file = file })
unfolding discover
discover-found c calls pid found file s f w k = rw (discover, f, w, k) refl

track-known :
    (c : Config) (b : Bool) (pid : ℤ) (s : Globals)
    → is_known pid ≡ true
    → track c b pid s ≡ (0, create_pid_file c b (record s { running_pid = pid }))
unfolding track
track-known c b pid s k = rw (track, k) refl

-- In both styles of pid files, a start whose command was run tracks the process of the first look that
-- finds one with a pid, succeeds, and leaves the pid file as it is.
pub discover-first :
    (c : Config) (calls : StartCalls) (pid : ℤ) (s : Globals) (vain more : List Poll) (poll : Poll)
    → is_file_style c.pid_style ≡ true
    → calls.polls ≡ vain ++ poll ∷ more
    → All IsVain vain
    → is_known (check_for_valid_pid_file poll) ≡ true
    → discover c calls pid s
      ≡ (0, record s { running_pid = check_for_valid_pid_file poll; file = poll.seen })
discover-first c calls pid s vain more poll f p h k =
    let found = check_for_valid_pid_file poll in
    discover-found c calls pid found poll.seen s f
      (ap (λ ps. wait_for_valid_pid_file ps calls.last_poll) p
        ∙ wait_for_valid_pid_file-first vain more poll calls.last_poll h (known-pid found k))
      (known-pid found k)
    ∙ track-known c calls.can_write found (record s { file = poll.seen }) k
    ∙ ap (λ s'. (0, s'))
        (create_pid_file-left c calls.can_write (record s { running_pid = found; file = poll.seen })
          f)
