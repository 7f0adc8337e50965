-- ===== src/Trace/Tests/Script.antt =====
-- A script under the bounds, and an instance of the theorem on it.
use macports.Prelude.{
  ◌≡◌, ◌≢◌, refl, ap, [], ◌∷◌, ◌++◌, Bytes, true, false, none, some, codes, arith, length,
}
use macports.Prelude.Text.{null-NoNull}
use macports.Trace.Spelling.{ask, encode}
use macports.Trace.Rules.{path_begins_with, begins_with}
use macports.Trace.Check.{World}
use macports.Trace.Decision.{IsBounds}
use macports.Trace.Buffer.{split_slash}
use macports.Trace.Lookup.{same_text}
use macports.Trace.Normal.{resolve, path_of}
use macports.Trace.Absolute.{IsPlain, has_fork, is_vol}
use macports.Trace.Absolute
use macports.Trace.Exec.{Process, calls, enoent, check_interpreter}
use macports.Trace.Script.{script-unchecked}
use macports.Trace.Tests.{sample_buffer, cons_ne}

-- There is no file at all.
abbrev empty_world : World
empty_world = record { lstat = λ path. none; full_path = λ path. none; answer = λ request. [] }

abbrev sample_process : Process
sample_process = record {
  filemap = some (encode ((codes "/opt", ask) ∷ []) ++ []);
  buffer = sample_buffer;
  stored = record { libraries = none; namespace = none; log = none };
}

-- "/opt/sh" and the next line, behind the slash.
abbrev script_path : Bytes
script_path = codes "opt/sh" ++ (b'\n' ∷ codes "exec")

opt-IsBounds : IsBounds ((codes "/opt", ask) ∷ [])
opt-IsBounds = ((null-NoNull (codes "/opt") refl, cons_ne _ _), tt)

script-IsPlain : IsPlain script_path
unfolding split_slash
script-IsPlain = (
  (cons_ne _ _, null-NoNull (codes "opt") refl),
  ((cons_ne _ _, null-NoNull (codes "sh\nexec") refl), tt),
)

script-ne : Absolute.normal script_path ≢ []
unfolding split_slash resolve
script-ne e = omega (arith, ap length e)

script-fork : has_fork (Absolute.normal script_path) ≡ false
unfolding split_slash resolve same_text
script-fork = refl

script-vol : is_vol (Absolute.normal script_path) ≡ false
unfolding split_slash resolve
script-vol = refl

script-below : path_begins_with (path_of (Absolute.normal script_path)) (codes "/opt") ≡ true
unfolding split_slash resolve path_of path_begins_with begins_with
script-below = refl

script-unchecked_example :
    check_interpreter empty_world sample_process
      (some (
        b'#' ∷ b'!' ∷ b'/' ∷ ((codes "opt/sh" ++ (b'\n' ∷ codes "exec")) ++ (b' ' ∷ codes "make"))))
      enoent
      calls
    ≡ calls []
script-unchecked_example =
    script-unchecked empty_world sample_process enoent calls (codes "opt/sh") (codes "exec")
      (codes "make") (codes "/opt") [] [] refl opt-IsBounds
      (
        refl,
        (refl, (refl, (refl, (refl, (refl, (refl, (refl, (refl, (refl, (refl, (refl, tt))))))))))),
      )
      (omega arith) script-IsPlain (omega arith) script-ne script-fork script-vol refl script-below
