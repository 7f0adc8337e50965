-- ===== src/Trace/Script.antt =====
-- The interpreters of scripts, which base/src/darwintracelib1.0/proc.c checks, against the bounds.
use macports.Prelude.{
  ◌≡◌, ◌≢◌, ◌<◌, ◌≤◌, ◌∙◌, ap, [], ◌∷◌, ◌++◌, List, Bytes, true, false, ◌==◌, ◌||◌, length, none,
  some, All, arith,
}
use macports.Trace.Rules.{path_begins_with}
use macports.Trace.Spelling.{Rule, ask, encode}
use macports.Trace.Check.{Flags, World, verdict, dependency_check, sandbox_check}
use macports.Trace.Decision.{IsBounds, act, decide, encoded_decide}
use macports.Trace.Lookup.{is_in_sandbox}
use macports.Trace.Normal.{path_of}
use macports.Trace.Absolute.{IsPlain, normal, has_fork, is_vol, is_link, lookup-normal}
use macports.Prelude.Words.{take_all}
use macports.Trace.Exec.{
  Process, Errno, enoent, Outcome, report_all, if_in_sandbox, check_path, is_blank, interpreter,
  check_interpreter, interpreter-next_line,
}

missing-granted :
    (w : World) (flags : Flags) (path prefix rest : Bytes) (rules : List Rule)
    → IsBounds ((prefix, ask) ∷ rules)
    → w.lstat path ≡ none
    → path_begins_with path prefix ≡ true
    → sandbox_check w flags (encode ((prefix, ask) ∷ rules) ++ rest) path ≡ verdict true []
unfolding decide act dependency_check
missing-granted w flags path prefix rest rules h missing below =
    encoded_decide w flags path rest ((prefix, ask) ∷ rules) h ∙ ground (arith, missing, below)

missing-lookup :
    (w : World) (p : Process) (q prefix rest : Bytes) (rules : List Rule)
    → p.filemap ≡ some (encode ((prefix, ask) ∷ rules) ++ rest)
    → IsBounds ((prefix, ask) ∷ rules)
    → IsPlain q
    → length q < length p.buffer
    → normal q ≢ []
    → has_fork (normal q) ≡ false
    → is_vol (normal q) ≡ false
    → w.lstat (path_of (normal q)) ≡ none
    → path_begins_with (path_of (normal q)) prefix ≡ true
    → check_path w p report_all (b'/' ∷ q) ≡ verdict true []
unfolding check_path
missing-lookup w p q prefix rest rules map h plain room ne fork vol missing below =
    ap (λ bounds. is_in_sandbox w report_all bounds p.buffer (some (b'/' ∷ q))) map
    ∙ lookup-normal w report_all (encode ((prefix, ask) ∷ rules) ++ rest) p.buffer q plain room ne
        fork vol (ap is_link missing)
    ∙ missing-granted w report_all (path_of (normal q)) prefix rest rules h missing below

-- A script can escape the check of its interpreter: what is checked is the interpreter with the next line
-- of the script, up to a blank. Where no such file exists and the first bound is above it and asks the
-- server, the check succeeds, and nothing is asked or reported. The interpreter and the next line have no
-- blanks and null characters, are read at once, fit into the buffer, have no empty components, and do not
-- come down to the root, a resource fork or VOLFS.
pub script-unchecked :
    (w : World) (p : Process) (e : Errno) (next : List Bytes → Outcome)
    (interp line rest prefix more : Bytes) (rules : List Rule)
    → p.filemap ≡ some (encode ((prefix, ask) ∷ rules) ++ more)
    → IsBounds ((prefix, ask) ∷ rules)
    → All (λ d. (is_blank d || d == 0) ≡ false) (b'/' ∷ (interp ++ (b'\n' ∷ line)))
    → length ((interp ++ (b'\n' ∷ line)) ++ (b' ' ∷ rest)) ≤ 1023
    → IsPlain (interp ++ (b'\n' ∷ line))
    → length (interp ++ (b'\n' ∷ line)) < length p.buffer
    → normal (interp ++ (b'\n' ∷ line)) ≢ []
    → has_fork (normal (interp ++ (b'\n' ∷ line))) ≡ false
    → is_vol (normal (interp ++ (b'\n' ∷ line))) ≡ false
    → w.lstat (path_of (normal (interp ++ (b'\n' ∷ line)))) ≡ none
    → path_begins_with (path_of (normal (interp ++ (b'\n' ∷ line)))) prefix ≡ true
    → check_interpreter w p
        (some (b'#' ∷ b'!' ∷ b'/' ∷ ((interp ++ (b'\n' ∷ line)) ++ (b' ' ∷ rest))))
        e
        next
      ≡ next []
unfolding check_interpreter
script-unchecked w p e next interp line rest prefix more rules map h blanks size plain room ne fork
      vol missing below =
    ap
      (λ s. elim (interpreter s) [
        | none ↦ next []
        | some i ↦ if_in_sandbox (check_path w p report_all i) enoent next
      ])
      (take_all 1026 (b'#' ∷ b'!' ∷ b'/' ∷ ((interp ++ (b'\n' ∷ line)) ++ (b' ' ∷ rest)))
        (omega arith))
    ∙ ap
        (λ o. elim o [
          | none ↦ next []
          | some i ↦ if_in_sandbox (check_path w p report_all i) enoent next
        ])
        (interpreter-next_line b'/' interp line rest blanks)
    ∙ ap (λ v. if_in_sandbox v enoent next)
        (missing-lookup w p (interp ++ (b'\n' ∷ line)) prefix more rules map h plain room ne fork
          vol missing below)
