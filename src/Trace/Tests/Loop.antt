-- ===== src/Trace/Tests/Loop.antt =====
-- Runs of trace mode's event loop and of the start of processes, and instances of the theorems on them.
use macports.Prelude.{◌≡◌, refl, [], ◌∷◌, List, Bytes, true, false, Option, some, codes, arith}
use macports.Trace.EventLoop.{
  on_pipe, on_socket, on_control, connected, nameless, Round, run_events, run_accepts, on_accept,
  run_round, run_rounds, start, run_cmd,
}
use macports.Trace.Peers.{enqueue}
use macports.Trace.Counts.{held}
use macports.Trace.Balance.{KnownRounds, IsClosed, run_cmd-IsClosed}
use macports.Trace.Stop.{pipe_ends}
use macports.Trace.Env.{trace_log, store_env, restore_env}
use macports.Trace.Restoring.{entries_of, stored_entry, entries-restore}

-- Two processes connect; one closes its socket, and a socket without a process is dropped.
abbrev first_round : Round
first_round = record {
  events = on_control false ∷ [];
  accepted = connected 5 100 (codes "sh") ∷ connected 6 101 (codes "make") ∷ nameless 7 ∷ [];
  blocks = true;
}

abbrev last_round : Round
last_round = record { events = on_socket 5 true true ∷ on_pipe ∷ []; accepted = []; blocks = true }

abbrev sample_rounds : List Round
sample_rounds = first_round ∷ last_round ∷ []

sample_known : KnownRounds sample_rounds start
unfolding run_round run_events run_accepts on_accept enqueue held
sample_known = (tt, ((omega arith, tt), tt))

run_cmd-IsClosed_example : IsClosed 6 (run_cmd sample_rounds)
run_cmd-IsClosed_example = run_cmd-IsClosed sample_rounds 6 sample_known

pipe_ends_example :
    run_rounds (last_round ∷ sample_rounds) start ≡ run_rounds (last_round ∷ []) start
pipe_ends_example = pipe_ends last_round sample_rounds start refl

abbrev sample_getenv : Bytes → Option Bytes
sample_getenv name = some (codes "/tmp/trace")

abbrev sample_env : List Bytes
sample_env = codes "PATH=/bin" ∷ codes "DARWINTRACE_LOG=/tmp/other" ∷ codes "DARWINTRACE_LOG=" ∷ []

entries-restore_example :
    entries_of trace_log (restore_env (store_env sample_getenv) sample_env)
    ≡ stored_entry trace_log (store_env sample_getenv) sample_env
entries-restore_example = entries-restore trace_log sample_getenv sample_env
