-- ===== src/Trace/Exec.antt =====
-- The wrappers of the system calls in base/src/darwintracelib1.0: proc.c, and the files named for the calls.
use macports.Prelude.{
  ℕ, ◌≡◌, refl, ap, ◌∙◌, [], ◌∷◌, ◌++◌, List, Bytes, Bool, true, false, ◌==◌, ◌||◌, ◌&&◌,
  if◌then◌else◌, take, Option, none, some, All, arith,
}
use macports.Trace.Check.{Flags, World, Verdict, verdict, abort, overrun, out_of_fuel}
use macports.Trace.Lookup.{is_in_sandbox}
use macports.Trace.Env.{Stored}

pub data Errno : Type 0 where
  enoent eacces : Errno
  other_errno : ℕ → Errno

-- What a wrapper does: it sets errno and returns -1, calls the system, or returns 0 without a call, each
-- with the messages sent; or the check does not return.
pub data Outcome : Type 0 where
  fails : Errno → List Bytes → Outcome
  calls : List Bytes → Outcome
  pretends : List Bytes → Outcome
  stops : Verdict → Outcome

abbrev pub report_all : Flags
report_all = record { report = true; allow_dir = true; follow_syms = true }

abbrev pub report_link : Flags
report_link = record { report = true; allow_dir = true; follow_syms = false }

abbrev pub report_change : Flags
report_change = record { report = true; allow_dir = false; follow_syms = true }

abbrev pub if_in_sandbox : Verdict → Errno → (List Bytes → Outcome) → Outcome
if_in_sandbox (verdict true log) e next = next log
if_in_sandbox (verdict false log) e next = fails e log
if_in_sandbox v e next = stops v

-- The list of bounds and the buffer of a process.
pub record Process : Type 0 where
  pub filemap : Option Bytes
  pub buffer : Bytes
  pub stored : Stored

unfoldable pub check_path : World → Process → Flags → Bytes → Verdict
check_path w p flags path = is_in_sandbox w flags p.filemap p.buffer (some path)

-- `_dt_access`, `_dt_stat` and `_dt_stat64`
unfoldable pub stat : World → Process → Bytes → Outcome
stat w p path = if_in_sandbox (check_path w p report_all path) enoent (λ log. calls log)

-- `_dt_lstat`, `_dt_lstat64`, `_dt_readlink` and `_dt_unlink`
unfoldable pub lstat_link : World → Process → Bytes → Outcome
lstat_link w p path = if_in_sandbox (check_path w p report_link path) enoent (λ log. calls log)

-- `_dt_rmdir`
unfoldable pub rmdir : World → Process → Bytes → Outcome
rmdir w p path = if_in_sandbox (check_path w p report_change path) enoent (λ log. calls log)

-- `_dt_open`, with O_CREAT or not.
unfoldable pub open_file : World → Process → Bool → Bytes → Outcome
open_file w p creates path =
    if_in_sandbox (check_path w p report_all path) (if creates then eacces else enoent)
      (λ log. calls log)

abbrev after_log : List Bytes → Outcome → Outcome
after_log log (fails e log') = fails e (log ++ log')
after_log log (calls log') = calls (log ++ log')
after_log log (pretends log') = pretends (log ++ log')
after_log log (stops v) = stops v

-- `_dt_rename`
unfoldable pub rename : World → Process → Bytes → Bytes → Outcome
rename w p from to = if_in_sandbox (check_path w p report_change from) enoent (λ log.
    after_log log (if_in_sandbox (check_path w p report_change to) eacces (λ log'. calls log')))

-- What lstat(2) says before a directory is made: there is none of that name, or anything else.
pub data Found : Type 0 where
  missing present : Found

-- `_dt_mkdir`
unfoldable pub mkdir : World → Process → Found → Bytes → Outcome
mkdir w p f path = elim (check_path w p report_change path) [
  | verdict true log ↦ calls log
  | verdict false log ↦ elim f [ missing ↦ fails eacces log | present ↦ pretends log ]
  | abort ↦ stops abort
  | overrun ↦ stops overrun
  | out_of_fuel ↦ stops out_of_fuel
]

-- isblank(3)
abbrev pub is_blank : ℕ → Bool
is_blank c = c == b' ' || c == b'\t'

unfoldable pub skip_blanks : Bytes → Bytes
skip_blanks [] = []
skip_blanks (c ∷ s) = let rest = skip_blanks s in if is_blank c then rest else c ∷ s

-- The text up to a blank, which strsep(3) cuts, or to a null character.
unfoldable pub until_blank : Bytes → Bytes
until_blank [] = []
until_blank (c ∷ s) = let rest = until_blank s in if is_blank c || c == 0 then [] else c ∷ rest

-- The interpreter in `check_interpreter`, in what is read of a file.
unfoldable pub interpreter : Bytes → Option Bytes
unfolding skip_blanks until_blank
interpreter (a ∷ b ∷ c ∷ s) =
    if a == b'#' && b == b'!' then some (until_blank (skip_blanks (c ∷ s))) else none
interpreter _ = none

-- `check_interpreter`, on what open(2) gives: an error, or the contents of the file, of which it reads
-- MAXPATHLEN and two bytes.
unfoldable pub check_interpreter :
    World → Process → Option Bytes → Errno → (List Bytes → Outcome) → Outcome
check_interpreter w p none e next = fails e []
check_interpreter w p (some contents) e next = elim (interpreter (take 1026 contents)) [
  | none ↦ next []
  | some interp ↦ if_in_sandbox (check_path w p report_all interp) enoent next
]

-- `_dt_execve`, up to the call. The environment that it gets is that of
-- `restore_env`.
unfoldable pub execve : World → Process → Option Bytes → Errno → Bytes → Outcome
execve w p file e path =
    if_in_sandbox (check_path w p report_all path) enoent
      (λ log. after_log log (check_interpreter w p file e (λ log'. calls log')))

until_blank-append :
    (p rest : Bytes)
    → All (λ c. (is_blank c || c == 0) ≡ false) p
    → until_blank (p ++ b' ' ∷ rest) ≡ p
unfolding until_blank
until_blank-append [] rest h = refl
until_blank-append (c ∷ p) rest h = ground (arith, h.0, until_blank-append p rest h.1)

blank_first : (c : ℕ) (s : Bytes) → (is_blank c || c == 0) ≡ false → skip_blanks (c ∷ s) ≡ c ∷ s
unfolding skip_blanks
blank_first c s h = ground (arith, h)

-- A script names its interpreter in its first line; where the interpreter and the next line have no blanks
-- and no null characters, the end of that line does not end the path that is taken, which goes on to the
-- first blank behind it.
pub interpreter-next_line :
    (c : ℕ) (p line rest : Bytes)
    → All (λ d. (is_blank d || d == 0) ≡ false) (c ∷ (p ++ (b'\n' ∷ line)))
    → interpreter (b'#' ∷ b'!' ∷ c ∷ ((p ++ (b'\n' ∷ line)) ++ (b' ' ∷ rest)))
      ≡ some (c ∷ (p ++ (b'\n' ∷ line)))
unfolding interpreter skip_blanks
interpreter-next_line c p line rest h = ap some (
    ap until_blank (blank_first c ((p ++ (b'\n' ∷ line)) ++ (b' ' ∷ rest)) h.0)
    ∙ until_blank-append (c ∷ (p ++ (b'\n' ∷ line))) rest h)
