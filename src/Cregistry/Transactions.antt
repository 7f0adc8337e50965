-- ===== src/Cregistry/Transactions.antt =====
-- The status of a registry and its transactions: base/src/cregistry/registry.c. What sqlite answers is
-- an argument, and the statements of transactions that it has executed are recorded.
use macports.Prelude.{[], ◌∷◌, List, if◌then◌else◌, Bool, true, false, Option, none, some}

-- The statements that start and end a transaction.
pub data Sql : Type 0 where
  begin begin_immediate commit rollback : Sql

-- A `reg_registry`: the bits of `status`, and what was executed, the last first.
pub record RegRegistry : Type 0 where
  pub reg_attached : Bool
  pub reg_transacting : Bool
  pub reg_can_write : Bool
  pub executed : List Sql

-- SQLITE_OK, SQLITE_BUSY and the other codes.
pub data SqlAnswer : Type 0 where
  sqlite_ok sqlite_busy sqlite_failed : SqlAnswer

-- A loop that goes on while sqlite is busy: whether it succeeds, none if sqlite stays busy.
unfoldable pub until_not_busy : List SqlAnswer → Option Bool
until_not_busy [] = none
until_not_busy (sqlite_ok ∷ answers) = some true
until_not_busy (sqlite_busy ∷ answers) = until_not_busy answers
until_not_busy (sqlite_failed ∷ answers) = some false

-- The call of sqlite3_exec for a rollback, which is not repeated.
abbrev pub only_once : List SqlAnswer → Option Bool
only_once [] = none
only_once (sqlite_ok ∷ answers) = some true
only_once (a ∷ answers) = some false

-- A function of the registry: its result, and the registry behind it; none if it does not return.
abbrev pub Called : Type 0
Called = Option (Bool × RegRegistry)

-- By the result of sqlite.
abbrev pub when_executed : Option Bool → RegRegistry → RegRegistry → Called
when_executed none after reg = none
when_executed (some true) after reg = some (true, after)
when_executed (some false) after reg = some (false, reg)

-- `reg_start_read` and `reg_start_write`, with their `reg_start`.
unfoldable pub reg_start_read : List SqlAnswer → RegRegistry → Called
unfolding until_not_busy
reg_start_read answers reg =
    if reg.reg_transacting
    then some (false, reg)
    else when_executed (until_not_busy answers)
        (record reg { reg_transacting = true; executed = begin ∷ reg.executed }) reg

unfoldable pub reg_start_write : List SqlAnswer → RegRegistry → Called
unfolding until_not_busy
reg_start_write answers reg =
    if reg.reg_transacting
    then some (false, reg)
    else when_executed (until_not_busy answers)
        (record reg {
          reg_transacting = true;
          reg_can_write = true;
          executed = begin_immediate ∷ reg.executed;
        })
        reg

-- `reg_commit` and `reg_rollback`, with their `reg_end`.
unfoldable pub reg_commit : List SqlAnswer → RegRegistry → Called
unfolding until_not_busy
reg_commit answers reg =
    if reg.reg_transacting
    then when_executed (until_not_busy answers)
        (record reg {
          reg_transacting = false;
          reg_can_write = false;
          executed = commit ∷ reg.executed;
        })
        reg
    else some (false, reg)

unfoldable pub reg_rollback : List SqlAnswer → RegRegistry → Called
reg_rollback answers reg =
    if reg.reg_transacting
    then when_executed (only_once answers)
        (record reg {
          reg_transacting = false;
          reg_can_write = false;
          executed = rollback ∷ reg.executed;
        })
        reg
    else some (false, reg)

-- `reg_detach`, less the release of the entries, with whether the statement can be prepared.
unfoldable pub reg_detach : Bool → List SqlAnswer → RegRegistry → Called
unfolding until_not_busy
reg_detach prepared answers reg =
    if reg.reg_attached
    then (if prepared
        then when_executed (until_not_busy answers) (record reg { reg_attached = false }) reg
        else some (false, reg))
    else some (false, reg)

-- A call of one of them. `reg_attach`, whose create_tables and update_db run transactions of their
-- own on the connection, is not among them.
pub data RegCall : Type 0 where
  call_start_read call_start_write call_commit call_rollback : List SqlAnswer → RegCall
  call_detach : Bool → List SqlAnswer → RegCall

unfoldable pub reg_call : RegCall → RegRegistry → Called
unfolding reg_start_read reg_start_write reg_commit reg_rollback reg_detach
reg_call (call_start_read answers) reg = reg_start_read answers reg
reg_call (call_start_write answers) reg = reg_start_write answers reg
reg_call (call_commit answers) reg = reg_commit answers reg
reg_call (call_rollback answers) reg = reg_rollback answers reg
reg_call (call_detach prepared answers) reg = reg_detach prepared answers reg

-- Several calls, whatever they return.
unfoldable pub reg_calls : List RegCall → RegRegistry → Option RegRegistry
unfolding reg_call
reg_calls [] reg = some reg
reg_calls (c ∷ cs) reg = elim (reg_call c reg) [ none ↦ none | some (_, reg') ↦ reg_calls cs reg' ]
