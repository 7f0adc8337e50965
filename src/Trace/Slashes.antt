-- ===== src/Trace/Slashes.antt =====
-- Empty components in the paths of `__darwintrace_is_in_sandbox` in
-- base/src/darwintracelib1.0/darwintrace.c.
use macports.Prelude.{
  ℕ, ◌+◌, ◌≡◌, ◌≢◌, ◌<◌, refl, ◌∙◌, ap, List, [], ◌∷◌, ◌++◌, Bytes, Bool, true, false, ◌==◌, ◌&&◌,
  if◌then◌else◌, length, drop, Option, none, some, arith, codes,
}
use macports.Trace.Check.{Flags, World, verdict, abort, sandbox_check}
use macports.Trace.Buffer.{
  Buffer, norm_path, split_slash, is_dot, is_dot_dot, step, push, walk, flat, until_null,
}
use macports.Trace.Lookup.{check_walked, strip_fork, resolve_vol, is_in_sandbox, from_kernel}
use macports.Trace.Normal.{IsToken, until_null-append}
use macports.Trace.Absolute.{is_link, follow-end}

abbrev first_with : ℕ → List Bytes → List Bytes
first_with c [] = (c ∷ []) ∷ []
first_with c (t ∷ ts) = (c ∷ t) ∷ ts

first_with_pos : (c : ℕ) (ts : List Bytes) → 0 < length (first_with c ts)
first_with_pos c [] = omega arith
first_with_pos c (t ∷ ts) = omega arith

split_slash_pos : (p : Bytes) → 0 < length (split_slash p)
unfolding split_slash
split_slash_pos [] = omega arith
split_slash_pos (c ∷ p) = go (c == b'/')
  where
    go :
        (b : Bool)
        → 0 < length (elim b [ true ↦ [] ∷ split_slash p | false ↦ first_with c (split_slash p) ])
    go true = omega arith
    go false = first_with_pos c (split_slash p)

first-append :
    (c : ℕ) (ts us : List Bytes) → 0 < length ts → first_with c (ts ++ us) ≡ first_with c ts ++ us
first-append c [] us ne = absurd (omega arith)
first-append c (t ∷ ts) us ne = refl

split_slash-append : (p s : Bytes) → split_slash (p ++ b'/' ∷ s) ≡ split_slash p ++ split_slash s
unfolding split_slash
split_slash-append [] s = refl
split_slash-append (c ∷ p) s = go (split_slash-append p s) (c == b'/')
  where
    go :
        split_slash (p ++ b'/' ∷ s) ≡ split_slash p ++ split_slash s
        → (b : Bool)
        → (elim b [
          | true ↦ [] ∷ split_slash (p ++ b'/' ∷ s)
          | false ↦ first_with c (split_slash (p ++ b'/' ∷ s))
        ])
          ≡ (elim b [ true ↦ [] ∷ split_slash p | false ↦ first_with c (split_slash p) ])
            ++ split_slash s
    go ih true = ap (λ ts. [] ∷ ts) ih
    go ih false =
        ap (first_with c) ih ∙ first-append c (split_slash p) (split_slash s) (split_slash_pos p)

walk-stop : (ts us : List Bytes) (b : Buffer) → walk (ts ++ [] ∷ us) b ≡ walk ts b
unfolding walk
walk-stop [] us b = refl
walk-stop ([] ∷ ts) us b = refl
walk-stop ((c ∷ t) ∷ ts) us b = go (step (c ∷ t) b) (walk-stop ts us)
  where
    go :
        (o : Option Buffer)
        → ((b' : Buffer) → walk (ts ++ [] ∷ us) b' ≡ walk ts b')
        → (elim o [ none ↦ none | some b' ↦ walk (ts ++ [] ∷ us) b' ])
          ≡ (elim o [ none ↦ none | some b' ↦ walk ts b' ])
    go none ih = refl
    go (some b') ih = ih b'

split-two_slashes :
    (p rest : Bytes) (b : Buffer)
    → walk (split_slash (p ++ b'/' ∷ b'/' ∷ rest)) b ≡ walk (split_slash p) b
unfolding split_slash walk
split-two_slashes p rest b =
    ap (λ ts. walk ts b) (split_slash-append p (b'/' ∷ rest))
    ∙ walk-stop (split_slash p) (split_slash rest) b

-- Of a path with two slashes in a row, absolute or not, only what stands before them is checked.
pub lookup-two_slashes :
    (w : World) (flags : Flags) (bounds : Option Bytes) (memory path rest : Bytes)
    → path ≢ []
    → is_in_sandbox w flags bounds memory (some (path ++ b'/' ∷ b'/' ∷ rest))
      ≡ is_in_sandbox w flags bounds memory (some path)
unfolding is_in_sandbox
lookup-two_slashes w flags none memory path rest ne = refl
lookup-two_slashes w flags (some bounds) memory [] rest ne = absurd (ne refl)
lookup-two_slashes w flags (some bounds) memory (c ∷ path) rest ne =
    go (c == b'/') (w.full_path (codes "."))
  where
    go :
        (slash : Bool) (cwd : Option Bytes)
        → (if slash
            then check_walked w flags bounds (
                walk
                  (split_slash (path ++ b'/' ∷ b'/' ∷ rest))
                  (record { gap = []; parts = []; rest = 0 ∷ drop 1 memory }))
            else (elim cwd [
              | none ↦ abort
              | some d ↦ check_walked w flags bounds (
                  walk
                    (split_slash ((c ∷ path) ++ b'/' ∷ b'/' ∷ rest))
                    (from_kernel d (0 ∷ drop 1 memory)))
            ]))
          ≡ (if slash
              then check_walked w flags bounds (
                  walk
                    (split_slash path)
                    (record { gap = []; parts = []; rest = 0 ∷ drop 1 memory }))
              else (elim cwd [
                | none ↦ abort
                | some d ↦
                    check_walked w flags bounds
                      (walk (split_slash (c ∷ path)) (from_kernel d (0 ∷ drop 1 memory)))
              ]))
    go true cwd = ap (check_walked w flags bounds) (split-two_slashes path rest _)
    go false none = refl
    go false (some d) = ap (check_walked w flags bounds) (split-two_slashes (c ∷ path) rest _)

-- A path that starts with two slashes is allowed without a report, whatever follows them, if links are
-- not to be followed or the root is not a link.
pub lookup-root_slash :
    (w : World) (flags : Flags) (bounds : Option Bytes) (memory rest : Bytes)
    → (flags.follow_syms && is_link (w.lstat (codes "/"))) ≡ false
    → is_in_sandbox w flags bounds memory (some (b'/' ∷ b'/' ∷ rest)) ≡ verdict true []
unfolding is_in_sandbox walk split_slash check_walked strip_fork resolve_vol norm_path until_null
    flat sandbox_check
lookup-root_slash w flags none memory rest h = refl
lookup-root_slash w flags (some bounds) memory rest h =
    follow-end w flags bounds (codes "/") 9
      (record { gap = []; parts = []; rest = 0 ∷ drop 1 memory }) refl h

walk-parent :
    (c rest : Bytes)
    → c ≢ []
    → is_dot c ≡ false
    → is_dot_dot c ≡ false
    → length c < length rest
    → walk (c ∷ codes ".." ∷ []) (record { gap = []; parts = []; rest = rest })
      ≡ some (record { gap = []; parts = []; rest = c ++ 0 ∷ drop (length c + 1) rest })
unfolding walk step push
walk-parent [] rest ne dot dots room = absurd (ne refl)
walk-parent (x ∷ c) rest ne dot dots room = ground (arith, dot, dots, room)

room_kept :
    (memory c : Bytes) → length c < length memory → length c < length {A = ℕ} (0 ∷ drop 1 memory)
room_kept [] c room = absurd (omega arith)
room_kept (m ∷ memory) c room = room

-- The parent of a directory below the root is checked as that directory, if its name is a component other
-- than one and two dots and fits into the buffer, and links are not to be followed or it is not a link.
pub lookup-parent :
    (w : World) (flags : Flags) (bounds memory c : Bytes)
    → IsToken c
    → split_slash c ≡ c ∷ []
    → is_dot c ≡ false
    → is_dot_dot c ≡ false
    → length c < length memory
    → (flags.follow_syms && is_link (w.lstat (b'/' ∷ c))) ≡ false
    → is_in_sandbox w flags (some bounds) memory (some (b'/' ∷ c ++ codes "/.."))
      ≡ sandbox_check w flags bounds (b'/' ∷ c)
unfolding is_in_sandbox check_walked strip_fork resolve_vol norm_path flat split_slash
lookup-parent w flags bounds memory c token one dot dots room link =
    ap
      (λ ts.
        check_walked w flags bounds
          (walk ts (record { gap = []; parts = []; rest = 0 ∷ drop 1 memory })))
      (split_slash-append c (codes "..") ∙ ap (λ ts. ts ++ codes ".." ∷ []) one)
    ∙ ap (check_walked w flags bounds)
        (walk-parent c (0 ∷ drop 1 memory) token.0 dot dots (room_kept memory c room))
    ∙ follow-end w flags bounds (b'/' ∷ c) 9
        (record { gap = []; parts = []; rest = c ++ 0 ∷ drop (length c + 1) (0 ∷ drop 1 memory) })
        (ap (λ s. b'/' ∷ s) (until_null-append c (drop (length c + 1) (0 ∷ drop 1 memory)) token.1))
        link
