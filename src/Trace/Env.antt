-- ===== src/Trace/Env.antt =====
-- `store_env` and `restore_env` of base/src/darwintracelib1.0/proc.c, which keep the variables that load
-- the library into a new process.
use macports.Prelude.{
  [], ◌∷◌, ◌++◌, List, Bytes, Bool, true, false, ◌==◌, ◌&&◌, if◌then◌else◌, Option, none, some,
  codes,
}

-- `__darwintrace_strbeginswith`
unfoldable pub str_begins : Bytes → Bytes → Bool
str_begins str [] = true
str_begins [] (p ∷ prefix) = false
str_begins (s ∷ str) (p ∷ prefix) = let rest = str_begins str prefix in p == s && rest

-- The variable that an entry of the environment sets.
pub data Variable : Type 0 where
  insert_libraries flat_namespace trace_log another : Variable

unfoldable pub variable_of : Bytes → Variable
variable_of v =
    if str_begins v (codes "DYLD_INSERT_LIBRARIES=")
    then insert_libraries
    else if str_begins v (codes "DYLD_FORCE_FLAT_NAMESPACE=")
    then flat_namespace
    else if str_begins v (codes "DARWINTRACE_LOG=")
    then trace_log
    else another

-- The three entries that are stored, where the variables are set.
pub record Stored : Type 0 where
  pub libraries : Option Bytes
  pub namespace : Option Bytes
  pub log : Option Bytes

abbrev pub entry_of : Bytes → Option Bytes → Option Bytes
entry_of name none = none
entry_of name (some value) = some (name ++ b'=' ∷ value)

-- `store_env`, on getenv(3).
unfoldable pub store_env : (Bytes → Option Bytes) → Stored
store_env getenv = record {
  libraries = entry_of (codes "DYLD_INSERT_LIBRARIES") (getenv (codes "DYLD_INSERT_LIBRARIES"));
  namespace =
      entry_of (codes "DYLD_FORCE_FLAT_NAMESPACE") (getenv (codes "DYLD_FORCE_FLAT_NAMESPACE"));
  log = entry_of (codes "DARWINTRACE_LOG") (getenv (codes "DARWINTRACE_LOG"));
}

abbrev pub add_entry : Option Bytes → List Bytes → List Bytes
add_entry none env = env
add_entry (some v) env = v ∷ env

-- `restore_env`: an entry is given up once it is in the copy.
unfoldable pub restore_env : Stored → List Bytes → List Bytes
restore_env st [] = add_entry st.libraries (add_entry st.namespace (add_entry st.log []))
restore_env st (v ∷ env) = elim (variable_of v) [
  | insert_libraries ↦ add_entry st.libraries (restore_env (record st { libraries = none }) env)
  | flat_namespace ↦ add_entry st.namespace (restore_env (record st { namespace = none }) env)
  | trace_log ↦ add_entry st.log (restore_env (record st { log = none }) env)
  | another ↦ v ∷ restore_env st env
]
