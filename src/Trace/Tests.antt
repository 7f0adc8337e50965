-- ===== src/Trace/Tests.antt =====
-- Runs of trace mode's sandbox, and instances of the theorems on it.
mod Loop
mod Session
mod Script
use macports.Prelude.{
  ◌≡◌, ◌≢◌, ◌↔◌, refl, ap, List, [], ◌∷◌, ◌++◌, Bytes, true, false, ◌||◌, ◌&&◌, if◌then◌else◌,
  length, some, none, codes, All, arith, ◌<◌, ◌==◌, ℕ, ◌+◌, ◌^◌,
}
use macports.Prelude.Text.{null-NoNull}
use macports.Trace.Sandbox.{unset, allocated, freed, written, normal, scan, on_char, set_sandbox}
use macports.Trace.Rules.{path_begins_with, begins_with}
use macports.Trace.Spelling.{allow, ask, deny, Rule, escaped, spell, encode, scan-spell}
use macports.Trace.Check.{
  Flags, symlink, other, World, verdict, is_directory, is_root, sandbox_check, granted, foreign,
  unknown, dependency_check,
}
use macports.Trace.Buffer.{split_slash}
use macports.Trace.Lookup.{same_text, is_in_sandbox}
use macports.Trace.Normal.{resolve, path_of}
use macports.Trace.Absolute.{IsPlain, has_fork, is_vol, is_link, first_name, lookup-normal}
use macports.Trace.Absolute
use macports.Trace.Slashes.{lookup-two_slashes, lookup-root_slash, lookup-parent}
use macports.Trace.Total.{IsDone, lookup-IsDone}
use macports.Trace.Below.{IsBelow, path_begins_with-IsBelow}
use macports.Trace.Decision.{IsBounds, decide, bounds_decide}
use macports.Trace.Wire.{frame, receive, receive-frame}
use macports.Trace.Server.{Server, Registry, end_names, set_deps}
use macports.Trace.Names.{join, IsName, has_name}
use macports.Trace.Protocol.{ask_server, get_filemap}
use macports.Trace.Session.{set_up, no_fence}

abbrev pub first_rule : Rule
first_rule = (codes "/a:b", allow)

abbrev pub more_rules : List Rule
more_rules = (codes "/opt", ask) ∷ (codes "/", deny) ∷ []

abbrev pub sample_flags : Flags
sample_flags = record { report = true; allow_dir = true; follow_syms = true }

abbrev pub sample_world : World
sample_world = record {
  lstat = λ path. some other;
  full_path = λ path. none;
  answer = λ request. codes "!";
}

abbrev pub sample_buffer : Bytes
sample_buffer = codes "0123456789abcdef0123456789abcdef"

-- "/usr/../opt/./x" behind its slash
abbrev pub sample_path : Bytes
sample_path = codes "usr/../opt/./x"

pub cons_ne : (c : ℕ) (s : Bytes) → c ∷ s ≢ []
cons_ne c s e = omega (arith, ap length e)

spelled : spell first_rule more_rules ≡ codes "/a\\:b=+:/opt=?:/=-"
unfolding spell escaped
spelled = refl

scan-spell_example :
    scan normal (spell first_rule more_rules) ≡ written (encode (first_rule ∷ more_rules))
scan-spell_example = scan-spell first_rule more_rules

bad_escape : set_sandbox [] (codes "/a\\b=+") ≡ freed
unfolding set_sandbox scan on_char
bad_escape = refl

pub sample-IsBounds : IsBounds (first_rule ∷ more_rules)
sample-IsBounds = (
  (null-NoNull (codes "/a:b") refl, cons_ne _ _),
  (
    (null-NoNull (codes "/opt") refl, cons_ne _ _),
    ((null-NoNull (codes "/") refl, cons_ne _ _), tt),
  ),
)

bounds_decide_example :
    (bounds : Bytes) × (set_sandbox sample_buffer (spell first_rule more_rules) ≡ allocated bounds)
    × (sandbox_check sample_world sample_flags bounds (codes "/opt/x") ≡ (
        if is_root (codes "/opt/x")
          || (sample_flags.allow_dir && is_directory (sample_world.lstat (codes "/opt/x")))
        then verdict true []
        else decide sample_world sample_flags (codes "/opt/x") (first_rule ∷ more_rules)))
bounds_decide_example =
    bounds_decide sample_world sample_flags sample_buffer (codes "/opt/x") first_rule more_rules
      sample-IsBounds

pub sample-IsPlain : IsPlain sample_path
unfolding split_slash
sample-IsPlain = (
  (cons_ne _ _, null-NoNull (codes "usr") refl),
  (
    (cons_ne _ _, null-NoNull (codes "..") refl),
    (
      (cons_ne _ _, null-NoNull (codes "opt") refl),
      (
        (cons_ne _ _, null-NoNull (codes ".") refl),
        ((cons_ne _ _, null-NoNull (codes "x") refl), tt),
      ),
    ),
  ),
)

sample-normal : Absolute.normal sample_path ≡ codes "x" ∷ codes "opt" ∷ []
unfolding split_slash resolve
sample-normal = refl

pub sample-ne : Absolute.normal sample_path ≢ []
unfolding split_slash resolve
sample-ne e = omega (arith, ap length e)

pub sample-fork : has_fork (Absolute.normal sample_path) ≡ false
unfolding split_slash resolve same_text
sample-fork = refl

pub sample-vol : is_vol (Absolute.normal sample_path) ≡ false
unfolding split_slash resolve
sample-vol = refl

lookup-normal_example :
    is_in_sandbox sample_world sample_flags
      (some (encode (first_rule ∷ more_rules)))
      sample_buffer
      (some (b'/' ∷ sample_path))
    ≡ sandbox_check sample_world sample_flags
        (encode (first_rule ∷ more_rules))
        (path_of (Absolute.normal sample_path))
lookup-normal_example =
    lookup-normal sample_world sample_flags (encode (first_rule ∷ more_rules)) sample_buffer
      sample_path sample-IsPlain (omega arith) sample-ne sample-fork sample-vol refl

lookup-root_slash_example :
    is_in_sandbox sample_world sample_flags
      (some (encode (first_rule ∷ more_rules)))
      sample_buffer
      (some (codes "//opt/secret"))
    ≡ verdict true []
lookup-root_slash_example =
    lookup-root_slash sample_world sample_flags (some (encode (first_rule ∷ more_rules)))
      sample_buffer (codes "opt/secret") refl

opt-one : split_slash (codes "opt") ≡ codes "opt" ∷ []
unfolding split_slash
opt-one = refl

-- Two links that point to each other.
abbrev loop_world : World
loop_world = record {
  lstat = λ path. some (symlink (codes "/b"));
  full_path = λ path. none;
  answer = λ request. [];
}

lookup-IsDone_example : IsDone (
    is_in_sandbox loop_world sample_flags
      (some (encode (first_rule ∷ more_rules)))
      sample_buffer
      (some (codes "/a")))
lookup-IsDone_example =
    lookup-IsDone loop_world sample_flags (some (encode (first_rule ∷ more_rules))) sample_buffer
      (some (codes "/a"))

path_begins_with-IsBelow_example :
    (path_begins_with (codes "/opt/localx") (codes "/opt/local") ≡ true)
    ↔ IsBelow (codes "/opt/local") (codes "/opt/localx")
path_begins_with-IsBelow_example =
    path_begins_with-IsBelow (codes "/opt/localx") (codes "/opt/local")
      (null-NoNull (codes "/opt/localx") refl) (cons_ne _ _) (λ e. omega (arith, ap length e))

below_not : path_begins_with (codes "/opt/localx") (codes "/opt/local") ≡ false
unfolding path_begins_with begins_with
below_not = refl
