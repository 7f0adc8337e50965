-- ===== src/Trace/Restoring.antt =====
-- The environment that `restore_env` of base/src/darwintracelib1.0/proc.c gives.
use macports.Prelude.{
  ◌≡◌, ◌∙◌, refl, ap, [], ◌∷◌, List, Bytes, Bool, true, false, if◌then◌else◌, Option, none, some,
  codes,
}
use macports.Trace.Env.{
  Variable, insert_libraries, flat_namespace, trace_log, another, variable_of, str_begins, Stored,
  store_env, entry_of, add_entry, restore_env,
}

abbrev same_variable : Variable → Variable → Bool
same_variable insert_libraries insert_libraries = true
same_variable flat_namespace flat_namespace = true
same_variable trace_log trace_log = true
same_variable another another = true
same_variable _ _ = false

-- The entries of an environment that set a given variable, or any other one.
unfoldable pub entries_of : Variable → List Bytes → List Bytes
entries_of x [] = []
entries_of x (v ∷ env) =
    let rest = entries_of x env in if same_variable (variable_of v) x then v ∷ rest else rest

abbrev pub stored_entry : Variable → Stored → List Bytes → List Bytes
stored_entry insert_libraries st env = add_entry st.libraries []
stored_entry flat_namespace st env = add_entry st.namespace []
stored_entry trace_log st env = add_entry st.log []
stored_entry another st env = entries_of another env

abbrev Sets : Variable → Option Bytes → Type 0
Sets x none = Unit
Sets x (some v) = variable_of v ≡ x

abbrev pub IsStored : Stored → Type 0
IsStored st =
    Sets insert_libraries st.libraries × (Sets flat_namespace st.namespace × Sets trace_log st.log)

entries-add :
    (x y : Variable) (o : Option Bytes) (env : List Bytes)
    → Sets y o
    → entries_of x (add_entry o env)
      ≡ (if same_variable y x then add_entry o (entries_of x env) else entries_of x env)
unfolding entries_of
entries-add x y none env h = go (same_variable y x)
  where
    go : (b : Bool) → entries_of x env ≡ (if b then entries_of x env else entries_of x env)
    go true = refl
    go false = refl
entries-add x y (some v) env h = rw h refl

store_env-IsStored : (getenv : Bytes → Option Bytes) → IsStored (store_env getenv)
unfolding store_env variable_of str_begins
store_env-IsStored getenv = (
  libraries (getenv (codes "DYLD_INSERT_LIBRARIES")),
  (namespace (getenv (codes "DYLD_FORCE_FLAT_NAMESPACE")), log (getenv (codes "DARWINTRACE_LOG"))),
)
  where
    libraries :
        (o : Option Bytes) → Sets insert_libraries (entry_of (codes "DYLD_INSERT_LIBRARIES") o)
    libraries none = tt
    libraries (some value) = refl

    namespace :
        (o : Option Bytes) → Sets flat_namespace (entry_of (codes "DYLD_FORCE_FLAT_NAMESPACE") o)
    namespace none = tt
    namespace (some value) = refl

    log : (o : Option Bytes) → Sets trace_log (entry_of (codes "DARWINTRACE_LOG") o)
    log none = tt
    log (some value) = refl

give_libraries :
    (x : Variable) (st : Stored) (v : Bytes) (env : List Bytes)
    → variable_of v ≡ insert_libraries
    → (if same_variable insert_libraries x
        then add_entry st.libraries (stored_entry x (record st { libraries = none }) env)
        else stored_entry x (record st { libraries = none }) env)
      ≡ stored_entry x st (v ∷ env)
unfolding entries_of
give_libraries insert_libraries st v env e = refl
give_libraries flat_namespace st v env e = refl
give_libraries trace_log st v env e = refl
give_libraries another st v env e = rw e refl

give_namespace :
    (x : Variable) (st : Stored) (v : Bytes) (env : List Bytes)
    → variable_of v ≡ flat_namespace
    → (if same_variable flat_namespace x
        then add_entry st.namespace (stored_entry x (record st { namespace = none }) env)
        else stored_entry x (record st { namespace = none }) env)
      ≡ stored_entry x st (v ∷ env)
unfolding entries_of
give_namespace insert_libraries st v env e = refl
give_namespace flat_namespace st v env e = refl
give_namespace trace_log st v env e = refl
give_namespace another st v env e = rw e refl

give_log :
    (x : Variable) (st : Stored) (v : Bytes) (env : List Bytes)
    → variable_of v ≡ trace_log
    → (if same_variable trace_log x
        then add_entry st.log (stored_entry x (record st { log = none }) env)
        else stored_entry x (record st { log = none }) env)
      ≡ stored_entry x st (v ∷ env)
unfolding entries_of
give_log insert_libraries st v env e = refl
give_log flat_namespace st v env e = refl
give_log trace_log st v env e = refl
give_log another st v env e = rw e refl

keep_entry :
    (x : Variable) (st : Stored) (v : Bytes) (env : List Bytes)
    → variable_of v ≡ another
    → (if same_variable another x then v ∷ stored_entry x st env else stored_entry x st env)
      ≡ stored_entry x st (v ∷ env)
unfolding entries_of
keep_entry insert_libraries st v env e = refl
keep_entry flat_namespace st v env e = refl
keep_entry trace_log st v env e = refl
keep_entry another st v env e = rw e refl

rest_cases :
    (x : Variable) (st : Stored)
    → (if same_variable insert_libraries x
        then add_entry st.libraries (
            if same_variable flat_namespace x
            then add_entry st.namespace (
                if same_variable trace_log x
                then add_entry st.log (entries_of x [])
                else entries_of x [])
            else if same_variable trace_log x
            then add_entry st.log (entries_of x [])
            else entries_of x [])
        else if same_variable flat_namespace x
        then add_entry st.namespace (
            if same_variable trace_log x
            then add_entry st.log (entries_of x [])
            else entries_of x [])
        else if same_variable trace_log x
        then add_entry st.log (entries_of x [])
        else entries_of x [])
      ≡ stored_entry x st []
unfolding entries_of
rest_cases insert_libraries st = refl
rest_cases flat_namespace st = refl
rest_cases trace_log st = refl
rest_cases another st = refl

give_rest :
    (x : Variable) (st : Stored)
    → IsStored st
    → entries_of x (add_entry st.libraries (add_entry st.namespace (add_entry st.log [])))
      ≡ stored_entry x st []
give_rest x st (l, (n, g)) =
    entries-add x insert_libraries st.libraries (add_entry st.namespace (add_entry st.log [])) l
    ∙ ap (λ t. if same_variable insert_libraries x then add_entry st.libraries t else t)
        (entries-add x flat_namespace st.namespace (add_entry st.log []) n
          ∙ ap (λ t. if same_variable flat_namespace x then add_entry st.namespace t else t)
              (entries-add x trace_log st.log [] g))
    ∙ rest_cases x st

restored :
    (x : Variable) (st : Stored) (env : List Bytes)
    → IsStored st
    → entries_of x (restore_env st env) ≡ stored_entry x st env
unfolding restore_env
restored x st [] h = give_rest x st h
restored x st (v ∷ env) (l, (n, g)) = go (variable_of v) refl (λ st'. restored x st' env)
  where
    go :
        (y : Variable)
        → variable_of v ≡ y
        → ((st' : Stored)
            → IsStored st'
            → entries_of x (restore_env st' env) ≡ stored_entry x st' env)
        → entries_of x (elim y [
          | insert_libraries ↦
              add_entry st.libraries (restore_env (record st { libraries = none }) env)
          | flat_namespace ↦
              add_entry st.namespace (restore_env (record st { namespace = none }) env)
          | trace_log ↦ add_entry st.log (restore_env (record st { log = none }) env)
          | another ↦ v ∷ restore_env st env
        ])
          ≡ stored_entry x st (v ∷ env)
    go insert_libraries e ih =
        entries-add x insert_libraries st.libraries
          (restore_env (record st { libraries = none }) env) l
        ∙ ap (λ t. if same_variable insert_libraries x then add_entry st.libraries t else t)
            (ih (record st { libraries = none }) (tt, (n, g)))
        ∙ give_libraries x st v env e
    go flat_namespace e ih =
        entries-add x flat_namespace st.namespace (restore_env (record st { namespace = none }) env)
          n
        ∙ ap (λ t. if same_variable flat_namespace x then add_entry st.namespace t else t)
            (ih (record st { namespace = none }) (l, (tt, g)))
        ∙ give_namespace x st v env e
    go trace_log e ih =
        entries-add x trace_log st.log (restore_env (record st { log = none }) env) g
        ∙ ap (λ t. if same_variable trace_log x then add_entry st.log t else t)
            (ih (record st { log = none }) (l, (n, tt)))
        ∙ give_log x st v env e
    go another e ih =
        entries-add x another (some v) (restore_env st env) e
        ∙ ap (λ t. if same_variable another x then v ∷ t else t) (ih st (l, (n, g)))
        ∙ keep_entry x st v env e

-- After restoring, an environment sets each of the three variables once and to the stored value, or not
-- at all where none is stored, however often it set them; all other entries are there in their order.
pub entries-restore :
    (x : Variable) (getenv : Bytes → Option Bytes) (env : List Bytes)
    → entries_of x (restore_env (store_env getenv) env) ≡ stored_entry x (store_env getenv) env
entries-restore x getenv env = restored x (store_env getenv) env (store_env-IsStored getenv)
