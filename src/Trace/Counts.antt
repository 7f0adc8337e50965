-- ===== src/Trace/Counts.antt =====
-- How often the event loop of base/src/pextlib1.0/tracelib.c accepts and closes a socket.
use macports.Prelude.{
  ℕ, suc, ◌+◌, ◌≡◌, ◌<◌, refl, ap, [], ◌∷◌, ◌++◌, List, false, ◌==◌, if◌then◌else◌, length, arith,
  Bool-cases, inl, inr,
}
use macports.Trace.Peers.{
  Peer, Call, accepts, closes, dequeue, walk_peers, close_and_send_sigterm, send_sigkill_and_free,
}

unfoldable pub held : ℕ → List Peer → ℕ
held s [] = 0
held s (p ∷ peers) = let rest = held s peers in if p.sock == s then 1 + rest else rest

-- How often a socket is accepted, and how often it is closed.
abbrev one_accept : ℕ → Call → ℕ
one_accept s (accepts t) = if t == s then 1 else 0
one_accept s _ = 0

abbrev one_close : ℕ → Call → ℕ
one_close s (closes t) = if t == s then 1 else 0
one_close s _ = 0

unfoldable pub accept_count : ℕ → List Call → ℕ
accept_count s [] = 0
accept_count s (c ∷ calls) = one_accept s c + accept_count s calls

unfoldable pub close_count : ℕ → List Call → ℕ
close_count s [] = 0
close_count s (c ∷ calls) = one_close s c + close_count s calls

pub accept_count-append :
    (s : ℕ) (a b : List Call) → accept_count s (a ++ b) ≡ accept_count s a + accept_count s b
unfolding accept_count
accept_count-append s [] b = omega arith
accept_count-append s (c ∷ a) b = omega (arith, accept_count-append s a b)

pub close_count-append :
    (s : ℕ) (a b : List Call) → close_count s (a ++ b) ≡ close_count s a + close_count s b
unfolding close_count
close_count-append s [] b = omega arith
close_count-append s (c ∷ a) b = omega (arith, close_count-append s a b)

held_behind :
    (t : ℕ) (p : Peer) (peers : List Peer)
    → 0 < held t (p ∷ peers)
    → (p.sock == t) ≡ false
    → 0 < held t peers
unfolding held
held_behind t p peers h e = ground (arith, e, h)

pub held-dequeue :
    (t s : ℕ) (peers : List Peer)
    → 0 < held t peers
    → held s peers ≡ held s (dequeue t peers).1 + (if t == s then 1 else 0)
unfolding held dequeue
held-dequeue t s [] h = absurd (omega arith)
held-dequeue t s (p ∷ peers) h = elim (Bool-cases (p.sock == t)) [
  | inl e ↦ ground (arith, e)
  | inr e ↦ ground (arith, e, held-dequeue t s peers (held_behind t p peers h e))
]

pub length-dequeue :
    (t : ℕ) (peers : List Peer) → 0 < held t peers → length peers ≡ suc (length (dequeue t peers).1)
unfolding held dequeue
length-dequeue t [] h = absurd (omega arith)
length-dequeue t (p ∷ peers) h = elim (Bool-cases (p.sock == t)) [
  | inl e ↦ ground (arith, e)
  | inr e ↦ ground (arith, e, length-dequeue t peers (held_behind t p peers h e))
]

terminated : (peers : List Peer) → (walk_peers close_and_send_sigterm peers).0 ≡ peers
unfolding walk_peers
terminated [] = refl
terminated (p ∷ peers) = ap (λ rest. p ∷ rest) (terminated peers)

terminated-counts :
    (s : ℕ) (peers : List Peer)
    → (accept_count s (walk_peers close_and_send_sigterm peers).1 ≡ 0)
      × (close_count s (walk_peers close_and_send_sigterm peers).1 ≡ 0)
unfolding walk_peers accept_count close_count
terminated-counts s [] = (refl, refl)
terminated-counts s (p ∷ peers) =
    let (a, c) = terminated-counts s peers in (omega (arith, a), omega (arith, c))

pub freed : (peers : List Peer) → (walk_peers send_sigkill_and_free peers).0 ≡ []
unfolding walk_peers
freed [] = refl
freed (p ∷ peers) = freed peers

freed-counts :
    (s : ℕ) (peers : List Peer)
    → (accept_count s (walk_peers send_sigkill_and_free peers).1 ≡ 0)
      × (close_count s (walk_peers send_sigkill_and_free peers).1 ≡ held s peers)
unfolding walk_peers accept_count close_count held
freed-counts s [] = (refl, refl)
freed-counts s (p ∷ peers) =
    let (a, c) = freed-counts s peers in (omega (arith, a), ground (arith, c))

pub killed :
    (s : ℕ) (peers : List Peer) (calls : List Call)
    → accept_count s calls ≡ close_count s calls + held s peers
    → accept_count s (
        calls
        ++ (walk_peers close_and_send_sigterm peers).1
        ++ (walk_peers send_sigkill_and_free (walk_peers close_and_send_sigterm peers).0).1)
      ≡ close_count s (
          calls
          ++ (walk_peers close_and_send_sigterm peers).1
          ++ (walk_peers send_sigkill_and_free (walk_peers close_and_send_sigterm peers).0).1)
killed s peers calls b =
    let (left, terms) = walk_peers close_and_send_sigterm peers in
    let kept = terminated peers in
    let (a, c) = terminated-counts s peers in
    let (a', c') = freed-counts s (walk_peers close_and_send_sigterm peers).0 in
    let kills = (walk_peers send_sigkill_and_free (walk_peers close_and_send_sigterm peers).0).1 in
    omega (
      arith,
      accept_count-append s (calls ++ terms) kills,
      accept_count-append s calls terms,
      close_count-append s (calls ++ terms) kills,
      close_count-append s calls terms,
      a,
      c,
      a',
      c',
      ap (held s) kept,
      b,
    )
