-- ===== src/Trace/Balance.antt =====
-- The sockets of the event loop in base/src/pextlib1.0/tracelib.c.
use macports.Prelude.{
  ℕ, ◌+◌, ◌≡◌, ◌<◌, refl, sym, ap, [], ◌∷◌, ◌++◌, List, Bool, true, false, not, ◌||◌, if◌then◌else◌,
  length, arith, subst,
}
use macports.Prelude.Int.{pos}
use macports.Trace.Peers.{
  Peer, Call, accepts, closes, enqueue, dequeue, walk_peers, close_and_send_sigterm,
}
use macports.Trace.Counts.{
  held, accept_count, close_count, accept_count-append, close_count-append, held-dequeue,
  length-dequeue, freed, killed,
}
use macports.Trace.EventLoop.{
  Kevent, on_pipe, on_socket, on_control, Accept, unregistered, nameless, connected, Loop, Part,
  failed, done, plus_one, close_peer, run_events, on_accept, run_accepts, Round, run_round,
  run_rounds, close_remaining, start, run_cmd,
}

-- The counter is the length of the list, and a socket was accepted as often as it was closed and stands in
-- the list.
abbrev pub IsBalanced : Loop → Type 0
IsBalanced l =
    (l.count ≡ pos (length l.peers))
    × ((s : ℕ) → accept_count s l.calls ≡ close_count s l.calls + held s l.peers)

-- The kernel reports events on sockets that are open.
abbrev pub KnownEvents : List Kevent → List Peer → Type 0
KnownEvents [] peers = Unit
KnownEvents (on_pipe ∷ events) peers = KnownEvents events peers
KnownEvents (on_control ended ∷ events) peers = KnownEvents events peers
KnownEvents (on_socket sock ended kept ∷ events) peers =
    (0 < held sock peers)
    × KnownEvents events (if ended || not kept then (dequeue sock peers).1 else peers)

close_peer-IsBalanced :
    (sock : ℕ) (l : Loop) → 0 < held sock l.peers → IsBalanced l → IsBalanced (close_peer sock l)
unfolding close_peer accept_count close_count
close_peer-IsBalanced sock l h (c, b) = (
  rw (c, length-dequeue sock l.peers h) refl,
  λ s. omega (
    arith,
    accept_count-append s l.calls (closes sock ∷ []),
    close_count-append s l.calls (closes sock ∷ []),
    held-dequeue sock s l.peers h,
    b s,
  ),
)

close_peer-known :
    (events : List Kevent) (sock : ℕ) (l : Loop)
    → KnownEvents events (dequeue sock l.peers).1
    → KnownEvents events (close_peer sock l).peers
unfolding close_peer
close_peer-known events sock l k = k

abbrev PartBalanced : Part → Type 0
PartBalanced (failed l) = IsBalanced l
PartBalanced (done incoming l) = IsBalanced l

events-PartBalanced :
    (events : List Kevent) (incoming : Bool) (l : Loop)
    → KnownEvents events l.peers
    → IsBalanced l
    → PartBalanced (run_events events incoming l)
unfolding run_events
events-PartBalanced [] incoming l k b = b
events-PartBalanced (on_pipe ∷ events) incoming l k b = events-PartBalanced events incoming _ k b
events-PartBalanced (on_control true ∷ events) incoming l k b = b
events-PartBalanced (on_control false ∷ events) incoming l k b =
    events-PartBalanced events true l k b
events-PartBalanced (on_socket sock ended kept ∷ events) incoming l k b =
    go (ended || not kept) k.1 (λ l'. events-PartBalanced events incoming l')
  where
    go :
        (closing : Bool)
        → KnownEvents events (if closing then (dequeue sock l.peers).1 else l.peers)
        → ((l' : Loop)
            → KnownEvents events l'.peers
            → IsBalanced l'
            → PartBalanced (run_events events incoming l'))
        → PartBalanced (run_events events incoming (if closing then close_peer sock l else l))
    go true known ih =
        ih (close_peer sock l) (close_peer-known events sock l known)
          (close_peer-IsBalanced sock l k.0 b)
    go false known ih = ih l known b

closed_again :
    (s sock : ℕ) (l : Loop)
    → accept_count s l.calls ≡ close_count s l.calls + held s l.peers
    → accept_count s (l.calls ++ accepts sock ∷ closes sock ∷ [])
      ≡ close_count s (l.calls ++ accepts sock ∷ closes sock ∷ []) + held s l.peers
unfolding accept_count close_count
closed_again s sock l b = omega (
  arith,
  b,
  accept_count-append s l.calls (accepts sock ∷ closes sock ∷ []),
  close_count-append s l.calls (accepts sock ∷ closes sock ∷ []),
)

on_accept-IsBalanced : (a : Accept) (l : Loop) → IsBalanced l → IsBalanced (on_accept a l)
unfolding on_accept enqueue held accept_count close_count
on_accept-IsBalanced (unregistered sock) l (c, b) = (c, λ s. closed_again s sock l (b s))
on_accept-IsBalanced (nameless sock) l (c, b) = (c, λ s. closed_again s sock l (b s))
on_accept-IsBalanced (connected sock pid prog) l (c, b) = (
  ap plus_one c,
  λ s. ground (
    arith,
    b s,
    accept_count-append s l.calls (accepts sock ∷ []),
    close_count-append s l.calls (accepts sock ∷ []),
  ),
)

accepts-PartBalanced :
    (accepted : List Accept) (blocks : Bool) (l : Loop)
    → IsBalanced l
    → PartBalanced (run_accepts accepted blocks l)
unfolding run_accepts
accepts-PartBalanced [] true l b = b
accepts-PartBalanced [] false l b = b
accepts-PartBalanced (a ∷ accepted) blocks l b =
    accepts-PartBalanced accepted blocks (on_accept a l) (on_accept-IsBalanced a l b)

round-PartBalanced :
    (r : Round) (l : Loop)
    → KnownEvents r.events l.peers
    → IsBalanced l
    → PartBalanced (run_round r l)
unfolding run_round
round-PartBalanced r l k b =
    go (run_events r.events false l) (events-PartBalanced r.events false l k b)
  where
    go :
        (part : Part)
        → PartBalanced part
        → PartBalanced (elim part [
          | failed l' ↦ failed l'
          | done true l' ↦ run_accepts r.accepted r.blocks l'
          | done false l' ↦ done false l'
        ])
    go (failed l') h = h
    go (done true l') h = accepts-PartBalanced r.accepted r.blocks l' h
    go (done false l') h = h

-- In every round that is run, the kernel reports events on open sockets only.
abbrev pub KnownRounds : List Round → Loop → Type 0
KnownRounds [] l = Unit
KnownRounds (r ∷ rounds) l = elim l.stop [
  | true ↦ Unit
  | false ↦
      KnownEvents r.events l.peers
      × (elim (run_round r l) [ failed l' ↦ Unit | done incoming l' ↦ KnownRounds rounds l' ])
]

rounds-IsBalanced :
    (rounds : List Round) (l : Loop)
    → KnownRounds rounds l
    → IsBalanced l
    → IsBalanced (run_rounds rounds l)
unfolding run_rounds
rounds-IsBalanced [] l k b = b
rounds-IsBalanced (r ∷ rounds) l k b =
    go l.stop (run_round r l) k (λ known. round-PartBalanced r l known b) (rounds-IsBalanced rounds)
  where
    go :
        (stop : Bool) (part : Part)
        → (elim stop as (λ x. Type 0) [
          | true ↦ Unit
          | false ↦ KnownEvents r.events l.peers × (elim part as (λ x. Type 0) [
            | failed l' ↦ Unit
            | done incoming l' ↦ KnownRounds rounds l'
          ])
        ])
        → (KnownEvents r.events l.peers → PartBalanced part)
        → ((l' : Loop) → KnownRounds rounds l' → IsBalanced l' → IsBalanced (run_rounds rounds l'))
        → IsBalanced (elim stop [
          | true ↦ l
          | false ↦ elim part [ failed l' ↦ l' | done incoming l' ↦ run_rounds rounds l' ]
        ])
    go true part known h ih = b
    go false (failed l') known h ih = h known.0
    go false (done incoming l') known h ih = ih l' known.1 (h known.0)

-- No peer is left, and a socket was closed as often as it was accepted.
abbrev pub IsClosed : ℕ → Loop → Type 0
IsClosed s l = (l.peers ≡ []) × (accept_count s l.calls ≡ close_count s l.calls)

close_counted :
    (s : ℕ) (peers : List Peer) (stop : Bool) (calls : List Call)
    → accept_count s calls ≡ close_count s calls + held s peers
    → IsClosed s (
        close_remaining
          (record { peers = peers; count = pos (length peers); stop = stop; calls = calls }))
unfolding close_remaining held
close_counted s [] stop calls b = (refl, omega (arith, b))
close_counted s (p ∷ peers) stop calls b =
    (freed (walk_peers close_and_send_sigterm (p ∷ peers)).0, killed s (p ∷ peers) calls b)

close_remaining-IsClosed : (s : ℕ) (l : Loop) → IsBalanced l → IsClosed s (close_remaining l)
close_remaining-IsClosed s l (c, b) =
    subst (λ n. IsClosed s (close_remaining (record l { count = n }))) (sym c)
      (close_counted s l.peers l.stop l.calls (b s))

-- However the loop ends, no peer is left, and every socket was closed as often as it was accepted, if the
-- kernel reports events on open sockets only.
pub run_cmd-IsClosed :
    (rounds : List Round) (s : ℕ) → KnownRounds rounds start → IsClosed s (run_cmd rounds)
unfolding run_cmd accept_count close_count held
run_cmd-IsClosed rounds s k =
    close_remaining-IsClosed s (run_rounds rounds start)
      (rounds-IsBalanced rounds start k (refl, λ t. refl))
