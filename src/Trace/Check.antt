-- ===== src/Trace/Check.antt =====
-- `__darwintrace_sandbox_check` of base/src/darwintracelib1.0/darwintrace.c and what it calls. The
-- file system and the answers of tracelib are arguments.
use macports.Prelude.{
  ℕ, zero, suc, List, [], ◌∷◌, ◌++◌, Bytes, Bool, true, false, ◌&&◌, ◌==◌, if◌then◌else◌, length,
  take, ltb, Option, none, some, codes,
}
use macports.Trace.Sandbox.{filemap_allow, filemap_ask, filemap_deny}
use macports.Trace.Rules.{finished, entry, aborted, past_end, filemap_iter, path_begins_with}

-- DT_REPORT, DT_ALLOWDIR and DT_FOLLOWSYMS
pub record Flags : Type 0 where
  pub report : Bool
  pub allow_dir : Bool
  pub follow_syms : Bool

pub data Kind : Type 0 where
  directory : Kind
  symlink : Bytes → Kind
  other : Kind

-- What lstat(2) and readlink(2) say of a path, the full path that getattrlist(2) has for it, behind its
-- slash, and what tracelib answers to a message.
pub record World : Type 0 where
  pub lstat : Bytes → Option Kind
  pub full_path : Bytes → Option Bytes
  pub answer : Bytes → Bytes

-- BUFFER_SIZE
abbrev pub buffer_size : ℕ
buffer_size = 4096

-- `__darwintrace_log_op`: the message that is sent, unless it does not fit.
unfoldable pub log_op : Bytes → Bytes → List Bytes
log_op op path =
    if ltb (length (op ++ b'\t' ∷ path)) buffer_size then (op ++ b'\t' ∷ path) ∷ [] else []

pub data Dependency : Type 0 where
  granted foreign unknown : Dependency
  no_answer : Dependency

-- The answers of tracelib in `dependency_check`. The process aborts on any other.
abbrev pub read_answer : Bytes → Dependency
read_answer [] = no_answer
read_answer (c ∷ s) =
    if c == b'+'
    then granted
    else if c == b'!'
    then foreign
    else if c == b'?'
    then unknown
    else no_answer

-- The request, cut to the buffer.
abbrev pub dep_request : Bytes → Bytes
dep_request path = take 4095 (codes "dep_check\t" ++ path)

unfoldable pub dependency_check : World → Bytes → Dependency
dependency_check w path = elim (w.lstat path) [
  | none ↦ granted
  | some directory ↦ granted
  | some _ ↦ read_answer (w.answer (dep_request path))
]

-- The result of a check, with the messages sent on the way. `abort` is abort(3), `overrun` an access past
-- the end of a buffer, and `out_of_fuel` belongs to the model only.
pub data Verdict : Type 0 where
  verdict : Bool → List Bytes → Verdict
  abort : Verdict
  overrun : Verdict
  out_of_fuel : Verdict

abbrev pub report : Flags → Bytes → Bytes → List Bytes
report flags op path = if flags.report then log_op op path else []

abbrev pub sandbox_violation : Bytes
sandbox_violation = codes "sandbox_violation"

abbrev pub sandbox_unknown : Bytes
sandbox_unknown = codes "sandbox_unknown"

abbrev pub on_dependency : Flags → Bytes → Dependency → Verdict
on_dependency flags path granted = verdict true []
on_dependency flags path unknown = verdict true (report flags sandbox_unknown path)
on_dependency flags path foreign = verdict false (report flags sandbox_violation path)
on_dependency flags path no_answer = abort

-- The switch over the command of the entry that matches.
unfoldable pub on_match : World → Flags → Bytes → ℕ → Verdict
on_match w flags path command =
    if command == filemap_allow
    then verdict true []
    else if command == filemap_ask
    then on_dependency flags path (dependency_check w path)
    else if command == filemap_deny
    then verdict false (report flags sandbox_violation path)
    else abort

-- The loop over the bounds.
unfoldable pub check_bounds : World → Flags → Bytes → ℕ → Bytes → Verdict
check_bounds w flags path zero bounds = out_of_fuel
check_bounds w flags path (suc fuel) bounds = elim (filemap_iter bounds) [
  | finished ↦ verdict false (report flags sandbox_violation path)
  | entry prefix command rest ↦ elim (path_begins_with path prefix) [
    | true ↦ on_match w flags path command
    | false ↦ check_bounds w flags path fuel rest
  ]
  | aborted ↦ abort
  | past_end ↦ overrun
]

abbrev pub is_directory : Option Kind → Bool
is_directory (some directory) = true
is_directory _ = false

abbrev pub is_root : Bytes → Bool
is_root (c ∷ []) = c == b'/'
is_root _ = false

unfoldable pub sandbox_check : World → Flags → Bytes → Bytes → Verdict
sandbox_check w flags bounds path =
    if is_root path
    then verdict true []
    else if flags.allow_dir && is_directory (w.lstat path)
    then verdict true []
    else check_bounds w flags path (suc (length bounds)) bounds
