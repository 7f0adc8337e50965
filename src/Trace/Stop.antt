-- ===== src/Trace/Stop.antt =====
-- The end of the event loop in base/src/pextlib1.0/tracelib.c, which `TracelibCloseSocketCmd` asks for by
-- a byte on the pipe.
use macports.Prelude.{
  ℕ, ◌≡◌, ◌∙◌, refl, [], ◌∷◌, List, Bool, true, false, not, ◌||◌, if◌then◌else◌, false≢true,
}
use macports.Trace.EventLoop.{
  Kevent, on_pipe, on_socket, on_control, Accept, unregistered, nameless, connected, Loop, Part,
  failed, done, close_peer, run_events, on_accept, run_accepts, Round, run_round, run_rounds,
}

abbrev pub has_pipe : List Kevent → Bool
has_pipe [] = false
has_pipe (on_pipe ∷ events) = true
has_pipe (e ∷ events) = has_pipe events

abbrev IsStopped : Part → Type 0
IsStopped (failed l) = Unit
IsStopped (done incoming l) = l.stop ≡ true

closed-stop :
    (closing : Bool) (sock : ℕ) (l : Loop)
    → (if closing then close_peer sock l else l).stop ≡ l.stop
unfolding close_peer
closed-stop true sock l = refl
closed-stop false sock l = refl

IsStopped-events :
    (events : List Kevent) (incoming : Bool) (l : Loop)
    → l.stop ≡ true
    → IsStopped (run_events events incoming l)
unfolding run_events
IsStopped-events [] incoming l h = h
IsStopped-events (on_pipe ∷ events) incoming l h =
    IsStopped-events events incoming (record l { stop = true }) refl
IsStopped-events (on_socket sock ended kept ∷ events) incoming l h =
    IsStopped-events events incoming _ (closed-stop (ended || not kept) sock l ∙ h)
IsStopped-events (on_control true ∷ events) incoming l h = tt
IsStopped-events (on_control false ∷ events) incoming l h = IsStopped-events events true l h

pipe-events :
    (events : List Kevent) (incoming : Bool) (l : Loop)
    → has_pipe events ≡ true
    → IsStopped (run_events events incoming l)
unfolding run_events
pipe-events [] incoming l h = absurd (false≢true h)
pipe-events (on_pipe ∷ events) incoming l h =
    IsStopped-events events incoming (record l { stop = true }) refl
pipe-events (on_socket sock ended kept ∷ events) incoming l h = pipe-events events incoming _ h
pipe-events (on_control true ∷ events) incoming l h = tt
pipe-events (on_control false ∷ events) incoming l h = pipe-events events true l h

accept-stop : (a : Accept) (l : Loop) → (on_accept a l).stop ≡ l.stop
unfolding on_accept
accept-stop (unregistered sock) l = refl
accept-stop (nameless sock) l = refl
accept-stop (connected sock pid prog) l = refl

IsStopped-accepts :
    (accepted : List Accept) (blocks : Bool) (l : Loop)
    → l.stop ≡ true
    → IsStopped (run_accepts accepted blocks l)
unfolding run_accepts
IsStopped-accepts [] true l h = h
IsStopped-accepts [] false l h = tt
IsStopped-accepts (a ∷ accepted) blocks l h =
    IsStopped-accepts accepted blocks (on_accept a l) (accept-stop a l ∙ h)

pipe-round : (r : Round) (l : Loop) → has_pipe r.events ≡ true → IsStopped (run_round r l)
unfolding run_round
pipe-round r l h = go (run_events r.events false l) (pipe-events r.events false l h)
  where
    go :
        (part : Part)
        → IsStopped part
        → IsStopped (elim part [
          | failed l' ↦ failed l'
          | done true l' ↦ run_accepts r.accepted r.blocks l'
          | done false l' ↦ done false l'
        ])
    go (failed l') s = tt
    go (done true l') s = IsStopped-accepts r.accepted r.blocks l' s
    go (done false l') s = s

stopped-rounds : (rounds : List Round) (l : Loop) → l.stop ≡ true → run_rounds rounds l ≡ l
unfolding run_rounds
stopped-rounds [] l h = refl
stopped-rounds (r ∷ rounds) l h = rw h refl

-- An event on the pipe ends the loop with the round that it is reported in, whatever else is reported.
pub pipe_ends :
    (r : Round) (rounds : List Round) (l : Loop)
    → has_pipe r.events ≡ true
    → run_rounds (r ∷ rounds) l ≡ run_rounds (r ∷ []) l
unfolding run_rounds
pipe_ends r rounds l h = go l.stop (run_round r l) (pipe-round r l h)
  where
    go :
        (stop : Bool) (part : Part)
        → IsStopped part
        → (elim stop [
          | true ↦ l
          | false ↦ elim part [ failed l' ↦ l' | done incoming l' ↦ run_rounds rounds l' ]
        ])
          ≡ (elim stop [ true ↦ l | false ↦ elim part [ failed l' ↦ l' | done incoming l' ↦ l' ] ])
    go true part s = refl
    go false (failed l') s = refl
    go false (done incoming l') s = stopped-rounds rounds l' s
