-- ===== src/Trace/EventLoop.antt =====
-- The event loop `TracelibRunCmd` of base/src/pextlib1.0/tracelib.c, from the first call of kevent(2) on.
-- What the calls of the operating system and `process_line` answer are its inputs.
use macports.Prelude.{
  ℕ, zero, suc, [], ◌∷◌, ◌++◌, List, Bytes, Bool, true, false, not, ◌||◌, if◌then◌else◌,
}
use macports.Prelude.Int.{ℤ, pos, negsuc}
use macports.Trace.Peers.{
  Peer, Call, accepts, closes, enqueue, dequeue, walk_peers, close_and_send_sigterm,
  send_sigkill_and_free,
}

-- An event: on the pipe, on a socket, with EV_EOF or EV_ERROR set or not and with the result of
-- `process_line`, or on the control socket, with those flags set or not.
pub data Kevent : Type 0 where
  on_pipe : Kevent
  on_socket : ℕ → Bool → Bool → Kevent
  on_control : Bool → Kevent

-- A call of accept(2) that gives a socket: its registration fails, the process has no number, or it has
-- one.
pub data Accept : Type 0 where
  unregistered : ℕ → Accept
  nameless : ℕ → Accept
  connected : ℕ → ℕ → Bytes → Accept

-- `peer_list`, `opensockcount`, `break_eventloop`, and the calls so far.
pub record Loop : Type 0 where
  pub peers : List Peer
  pub count : ℤ
  pub stop : Bool
  pub calls : List Call

-- The result of a part of the loop: `failed` goes to error_unlocked.
pub data Part : Type 0 where
  failed : Loop → Part
  done : Bool → Loop → Part

abbrev pub plus_one : ℤ → ℤ
plus_one (pos n) = pos (suc n)
plus_one (negsuc zero) = pos 0
plus_one (negsuc (suc n)) = negsuc n

abbrev pub minus_one : ℤ → ℤ
minus_one (pos zero) = negsuc 0
minus_one (pos (suc n)) = pos n
minus_one (negsuc n) = negsuc (suc n)

unfoldable pub close_peer : ℕ → Loop → Loop
close_peer sock l = record l {
  peers = (dequeue sock l.peers).1;
  count = minus_one l.count;
  calls = l.calls ++ closes sock ∷ [];
}

-- The loop over the events; the Boolean is `incoming`.
unfoldable pub run_events : List Kevent → Bool → Loop → Part
run_events [] incoming l = done incoming l
run_events (on_pipe ∷ events) incoming l = run_events events incoming (record l { stop = true })
run_events (on_socket sock ended kept ∷ events) incoming l =
    run_events events incoming (if ended || not kept then close_peer sock l else l)
run_events (on_control true ∷ events) incoming l = failed l
run_events (on_control false ∷ events) incoming l = run_events events true l

unfoldable pub on_accept : Accept → Loop → Loop
on_accept (unregistered sock) l = record l { calls = l.calls ++ accepts sock ∷ closes sock ∷ [] }
on_accept (nameless sock) l = record l { calls = l.calls ++ accepts sock ∷ closes sock ∷ [] }
on_accept (connected sock pid prog) l = record l {
  peers = enqueue sock pid prog l.peers;
  count = plus_one l.count;
  calls = l.calls ++ accepts sock ∷ [];
}

-- The loop over accept(2), which ends with EWOULDBLOCK or, if not `blocks`, with another error.
unfoldable pub run_accepts : List Accept → Bool → Loop → Part
run_accepts [] true l = done false l
run_accepts [] false l = failed l
run_accepts (a ∷ accepted) blocks l = run_accepts accepted blocks (on_accept a l)

-- What one call of kevent(2) gives, and what accept(2) gives behind it.
pub record Round : Type 0 where
  pub events : List Kevent
  pub accepted : List Accept
  pub blocks : Bool

unfoldable pub run_round : Round → Loop → Part
run_round r l = elim (run_events r.events false l) [
  | failed l' ↦ failed l'
  | done true l' ↦ run_accepts r.accepted r.blocks l'
  | done false l' ↦ done false l'
]

-- The rounds of the loop, until it is stopped or a call fails; behind the last one kevent(2) fails.
unfoldable pub run_rounds : List Round → Loop → Loop
run_rounds [] l = l
run_rounds (r ∷ rounds) l = elim l.stop [
  | true ↦ l
  | false ↦ elim (run_round r l) [ failed l' ↦ l' | done _ l' ↦ run_rounds rounds l' ]
]

abbrev pub is_pos : ℤ → Bool
is_pos (pos zero) = false
is_pos (pos (suc n)) = true
is_pos (negsuc n) = false

-- What follows error_unlocked.
unfoldable pub close_remaining : Loop → Loop
close_remaining l =
    if is_pos l.count
    then record l {
      peers = (walk_peers send_sigkill_and_free (walk_peers close_and_send_sigterm l.peers).0).0;
      calls =
          l.calls
          ++ (walk_peers close_and_send_sigterm l.peers).1
          ++ (walk_peers send_sigkill_and_free (walk_peers close_and_send_sigterm l.peers).0).1;
    }
    else l

abbrev pub start : Loop
start = record { peers = []; count = pos 0; stop = false; calls = [] }

-- `TracelibRunCmd`, once the control socket and the pipe are registered.
unfoldable pub run_cmd : List Round → Loop
run_cmd rounds = close_remaining (run_rounds rounds start)
