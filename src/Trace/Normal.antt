-- ===== src/Trace/Normal.antt =====
-- The walk of base/src/darwintracelib1.0/darwintrace.c over a path, against the components that the
-- path names.
use macports.Prelude.{
  ℕ, zero, suc, ◌+◌, ◌≡◌, ◌≢◌, ◌≤◌, refl, sym, ◌∙◌, ap, List, [], ◌∷◌, ◌++◌, Bytes, Bool, true,
  false, if◌then◌else◌, length, drop, map, Option, none, some, All, arith, append_assoc,
  length-append,
}
use macports.Prelude.Text.{NoNull}
use macports.Trace.Buffer.{
  Buffer, push, pop, pop_parts, flat, slash_part, add_slashes, until_null, norm_path, is_dot,
  is_dot_dot, step, walk,
}

abbrev tail : List Bytes → List Bytes
tail [] = []
tail (c ∷ names) = names

-- The components that a path names, the last one first: a dot names nothing, and two dots take a
-- component back.
unfoldable pub resolve : List Bytes → List Bytes → List Bytes
resolve [] names = names
resolve (t ∷ tokens) names =
    resolve tokens (if is_dot t then names else if is_dot_dot t then tail names else t ∷ names)

-- The path with given components.
unfoldable pub path_of : List Bytes → Bytes
path_of [] = []
path_of (c ∷ names) = path_of names ++ b'/' ∷ c

unfoldable pub names_of : List (Bytes × ℕ) → List Bytes
names_of [] = []
names_of ((c, end) ∷ parts) = c ∷ names_of parts

abbrev pub IsToken : Bytes → Type 0
IsToken t = (t ≢ []) × NoNull t

-- The room that tokens take.
unfoldable pub size : List Bytes → ℕ
size [] = 0
size (t ∷ tokens) = length t + 1 + size tokens

-- A step succeeds, names the given components, and leaves the given room.
abbrev StepsTo : List Bytes → ℕ → Option Buffer → Type 0
StepsTo names room none = ⊥
StepsTo names room (some b) = (names_of b.parts ≡ names) × (room ≤ length b.rest) × (b.gap ≡ [])

length-drop : (n room : ℕ) (s : Bytes) → n + room ≤ length s → room ≤ length (drop n s)
length-drop zero room s h = omega arith
length-drop (suc n) room [] h = absurd (omega arith)
length-drop (suc n) room (c ∷ s) h = length-drop n room s (omega arith)

push-StepsTo :
    (t : Bytes) (room : ℕ) (b : Buffer)
    → length t + 1 + room ≤ length b.rest
    → b.gap ≡ []
    → StepsTo (t ∷ names_of b.parts) room (push t b)
unfolding push names_of
push-StepsTo t room b h g = ground (arith, g, length-drop (length t + 1) room b.rest h)

pop-names :
    (gap : Bytes) (parts : List (Bytes × ℕ)) (rest : Bytes)
    → names_of (pop_parts gap parts rest).parts ≡ tail (names_of parts)
unfolding names_of
pop-names gap [] rest = refl
pop-names gap ((c, end) ∷ []) rest = refl
pop-names gap ((c, end) ∷ p ∷ parts) rest = refl

pop-room :
    (gap : Bytes) (parts : List (Bytes × ℕ)) (rest : Bytes)
    → length rest ≤ length (pop_parts gap parts rest).rest
pop-room gap [] rest = omega arith
pop-room gap ((c, end) ∷ []) rest = omega (arith, length-append (gap ++ c) (end ∷ rest))
pop-room gap ((c, end) ∷ p ∷ parts) rest = omega (arith, length-append c (end ∷ rest))

pop-gap : (parts : List (Bytes × ℕ)) (rest : Bytes) → (pop_parts [] parts rest).gap ≡ []
pop-gap [] rest = refl
pop-gap ((c, end) ∷ []) rest = refl
pop-gap ((c, end) ∷ p ∷ parts) rest = refl

step-StepsTo :
    (t : Bytes) (room : ℕ) (b : Buffer)
    → length t + 1 + room ≤ length b.rest
    → b.gap ≡ []
    → StepsTo
        (if is_dot t
          then names_of b.parts
          else if is_dot_dot t
          then tail (names_of b.parts)
          else t ∷ names_of b.parts)
        room
        (step t b)
unfolding step
step-StepsTo t room b h g = go (is_dot t) (is_dot_dot t)
  where
    go :
        (d e : Bool)
        → StepsTo
            (if d
              then names_of b.parts
              else if e
              then tail (names_of b.parts)
              else t ∷ names_of b.parts)
            room
            (if d then some b else if e then some (pop b) else push t b)
    go true e = (refl, omega arith, g)
    go false true = (
      pop-names b.gap b.parts b.rest,
      omega (arith, pop-room b.gap b.parts b.rest),
      ap (λ gap. (pop_parts gap b.parts b.rest).gap) g ∙ pop-gap b.parts b.rest,
    )
    go false false = push-StepsTo t room b h g

-- With room for its tokens, the walk over them ends with the components that they name.
pub walk-resolve :
    (tokens : List Bytes) (b : Buffer)
    → All IsToken tokens
    → size tokens ≤ length b.rest
    → b.gap ≡ []
    → (b' : Buffer) × (walk tokens b ≡ some b')
      × (names_of b'.parts ≡ resolve tokens (names_of b.parts))
      × (b'.gap ≡ [])
unfolding walk resolve size
walk-resolve [] b h r g = (b, refl, refl, g)
walk-resolve ([] ∷ tokens) b h r g = absurd (h.0.0 refl)
walk-resolve ((c ∷ t) ∷ tokens) b h r g =
    go (step (c ∷ t) b) (step-StepsTo (c ∷ t) (size tokens) b (omega arith) g)
      (λ b''. walk-resolve tokens b'' h.1)
  where
    go :
        (o : Option Buffer)
        → StepsTo
            (if is_dot (c ∷ t)
              then names_of b.parts
              else if is_dot_dot (c ∷ t)
              then tail (names_of b.parts)
              else (c ∷ t) ∷ names_of b.parts)
            (size tokens)
            o
        → ((b'' : Buffer)
            → size tokens ≤ length b''.rest
            → b''.gap ≡ []
            → (b' : Buffer) × (walk tokens b'' ≡ some b')
              × (names_of b'.parts ≡ resolve tokens (names_of b''.parts))
              × (b'.gap ≡ []))
        → (b' : Buffer) × ((elim o [ none ↦ none | some b'' ↦ walk tokens b'' ]) ≡ some b')
          × (names_of b'.parts
              ≡ resolve tokens (
                  if is_dot (c ∷ t)
                  then names_of b.parts
                  else if is_dot_dot (c ∷ t)
                  then tail (names_of b.parts)
                  else (c ∷ t) ∷ names_of b.parts))
          × (b'.gap ≡ [])
    go none s ih = absurd s
    go (some b'') s ih =
        let (b', e, n, g') = ih b'' s.1 s.2 in (b', e, n ∙ ap (resolve tokens) s.0, g')

pub until_null-append : (s rest : Bytes) → NoNull s → until_null (s ++ 0 ∷ rest) ≡ s
unfolding until_null
until_null-append [] rest h = refl
until_null-append (c ∷ s) rest h = ground (arith, h.0, until_null-append s rest h.1)

flat-slash_part :
    (parts : List (Bytes × ℕ)) (x : Bytes)
    → b'/' ∷ flat (map slash_part parts) x ≡ path_of (names_of parts) ++ b'/' ∷ x
unfolding flat path_of names_of
flat-slash_part [] x = refl
flat-slash_part ((c, end) ∷ parts) x =
    flat-slash_part parts (c ++ b'/' ∷ x)
    ∙ sym (append_assoc (path_of (names_of parts)) (b'/' ∷ c) (b'/' ∷ x))

-- With the slashes added, `normPath` is the path of the components.
pub norm_path-parts :
    (parts : List (Bytes × ℕ)) (rest : Bytes)
    → names_of parts ≢ []
    → NoNull (path_of (names_of parts))
    → norm_path (add_slashes (record { gap = []; parts = parts; rest = rest }))
      ≡ path_of (names_of parts)
unfolding norm_path flat until_null path_of names_of
norm_path-parts [] rest ne h = absurd (ne refl)
norm_path-parts ((c, end) ∷ parts) rest ne h =
    ap until_null (flat-slash_part parts (c ++ 0 ∷ rest))
    ∙ ap until_null (sym (append_assoc (path_of (names_of parts)) (b'/' ∷ c) (0 ∷ rest)))
    ∙ until_null-append (path_of (names_of parts) ++ b'/' ∷ c) rest h
