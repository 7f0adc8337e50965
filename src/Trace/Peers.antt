-- ===== src/Trace/Peers.antt =====
-- The list of peers of base/src/pextlib1.0/tracelib.c.
use macports.Prelude.{
  ℕ, [], ◌∷◌, ◌++◌, List, Bytes, Bool, true, false, ◌==◌, if◌then◌else◌, Option, none, some,
}

-- `peerpid_entry_t`
pub record Peer : Type 0 where
  pub sock : ℕ
  pub pid : ℕ
  pub prog : Bytes

-- `peerpid_list_enqueue`, with memory for the entry.
unfoldable pub enqueue : ℕ → ℕ → Bytes → List Peer → List Peer
enqueue sock pid prog peers = record { sock = sock; pid = pid; prog = prog } ∷ peers

abbrev pub with_peer : Peer → Option ℕ × List Peer → Option ℕ × List Peer
with_peer p (pid, peers) = (pid, p ∷ peers)

-- `peerpid_list_dequeue`
unfoldable pub dequeue : ℕ → List Peer → Option ℕ × List Peer
dequeue sock [] = (none, [])
dequeue sock (p ∷ peers) =
    let rest = dequeue sock peers in
    if p.sock == sock then (some p.pid, peers) else with_peer p rest

-- `peerpid_list_get`
unfoldable pub get_pid : ℕ → List Peer → Option ℕ
get_pid sock [] = none
get_pid sock (p ∷ peers) =
    let rest = get_pid sock peers in if p.sock == sock then some p.pid else rest

-- The calls of the operating system that the event loop makes on sockets and processes.
pub data Call : Type 0 where
  accepts closes terminates kills : ℕ → Call

-- What `peerpid_list_walk` leaves, and the calls on the way. The callback says whether the entry is to
-- go.
unfoldable pub walk_peers : (Peer → Bool × List Call) → List Peer → List Peer × List Call
walk_peers callback [] = ([], [])
walk_peers callback (p ∷ peers) =
    let (rest, calls) = walk_peers callback peers in
    let (gone, call) = callback p in (if gone then rest else p ∷ rest, call ++ calls)

abbrev pub close_and_send_sigterm : Peer → Bool × List Call
close_and_send_sigterm p = (false, terminates p.pid ∷ [])

abbrev pub send_sigkill_and_free : Peer → Bool × List Call
send_sigkill_and_free p = (true, closes p.sock ∷ kills p.pid ∷ [])
