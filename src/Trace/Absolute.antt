-- ===== src/Trace/Absolute.antt =====
-- `__darwintrace_is_in_sandbox` of base/src/darwintracelib1.0/darwintrace.c on absolute paths.
use macports.Prelude.{
  ℕ, zero, suc, ◌+◌, ◌≡◌, ◌≢◌, ◌<◌, ◌≤◌, refl, sym, ◌∙◌, ap, List, [], ◌∷◌, Bytes, Bool, true,
  false, ◌&&◌, if◌then◌else◌, length, drop, Option, some, All, All-append, arith, codes, subst,
}
use macports.Prelude.Text.{NoNull}
use macports.Trace.Check.{Flags, Kind, symlink, World, sandbox_check}
use macports.Trace.Buffer.{Buffer, add_slashes, norm_path, split_slash, is_dot, is_dot_dot, walk}
use macports.Trace.Lookup.{
  same_text, strip_fork, first_part, starts_vol, resolve_vol, follow, check_walked, is_in_sandbox,
}
use macports.Trace.Normal.{resolve, path_of, names_of, IsToken, size, walk-resolve, norm_path-parts}

-- A path without empty components.
abbrev pub IsPlain : Bytes → Type 0
IsPlain p = All IsToken (split_slash p)

size-split_slash : (p : Bytes) → size (split_slash p) ≡ length p + 1
unfolding size split_slash
size-split_slash [] = refl
size-split_slash (c ∷ p) = ground (arith, size-split_slash p)

tail-NoNull :
    (names : List Bytes)
    → All NoNull names
    → All NoNull (elim names [ [] ↦ [] | c ∷ names' ↦ names' ])
tail-NoNull [] h = tt
tail-NoNull (c ∷ names) h = h.1

resolve-NoNull :
    (tokens names : List Bytes)
    → All IsToken tokens
    → All NoNull names
    → All NoNull (resolve tokens names)
unfolding resolve
resolve-NoNull [] names h k = k
resolve-NoNull (t ∷ tokens) names h k =
    resolve-NoNull tokens _ h.1 (go (is_dot t) (is_dot_dot t) names k)
  where
    go :
        (d e : Bool) (ns : List Bytes)
        → All NoNull ns
        → All NoNull (if d then ns else if e then elim ns [ [] ↦ [] | c ∷ ns' ↦ ns' ] else t ∷ ns)
    go true e ns n = n
    go false true [] n = tt
    go false true (c ∷ ns) n = n.1
    go false false ns n = (h.0.1, n)

path_of-NoNull : (names : List Bytes) → All NoNull names → NoNull (path_of names)
unfolding path_of
path_of-NoNull [] h = tt
path_of-NoNull (c ∷ names) h =
    All-append (λ d. 0 < d) (path_of names) (b'/' ∷ c) (path_of-NoNull names h.1) (omega arith, h.0)

-- The components end in a resource fork.
abbrev pub has_fork : List Bytes → Bool
has_fork (c ∷ d ∷ names) = same_text (codes "..namedfork") d && same_text (codes "rsrc") c
has_fork _ = false

unfoldable pub first_name : List Bytes → Bytes
first_name [] = []
first_name (c ∷ []) = c
first_name (c ∷ d ∷ names) = first_name (d ∷ names)

-- The components are those of a path in VOLFS.
abbrev pub is_vol : List Bytes → Bool
is_vol (c ∷ d ∷ e ∷ names) = starts_vol (codes ".vol") (first_name (c ∷ d ∷ e ∷ names))
is_vol _ = false

strip-same :
    (gap : Bytes) (parts : List (Bytes × ℕ)) (rest : Bytes)
    → has_fork (names_of parts) ≡ false
    → strip_fork (record { gap = gap; parts = parts; rest = rest })
      ≡ record { gap = gap; parts = parts; rest = rest }
unfolding strip_fork names_of
strip-same gap [] rest h = refl
strip-same gap ((c, end) ∷ []) rest h = refl
strip-same gap ((c, end) ∷ (d, end') ∷ parts) rest h = rw h

first-names_of : (parts : List (Bytes × ℕ)) → first_part parts ≡ first_name (names_of parts)
unfolding first_part first_name names_of
first-names_of [] = refl
first-names_of ((c, end) ∷ []) = refl
first-names_of ((c, end) ∷ (d, end') ∷ parts) = first-names_of ((d, end') ∷ parts)

vol-same :
    (w : World) (gap : Bytes) (parts : List (Bytes × ℕ)) (rest : Bytes)
    → is_vol (names_of parts) ≡ false
    → resolve_vol w (record { gap = gap; parts = parts; rest = rest })
      ≡ record { gap = gap; parts = parts; rest = rest }
unfolding resolve_vol names_of
vol-same w gap [] rest h = refl
vol-same w gap (p ∷ []) rest h = refl
vol-same w gap (p ∷ q ∷ []) rest h = refl
vol-same w gap ((c, x) ∷ (d, y) ∷ (e, z) ∷ parts) rest h =
    rw (first-names_of ((c, x) ∷ (d, y) ∷ (e, z) ∷ parts), names_of, h)

abbrev pub is_link : Option Kind → Bool
is_link (some (symlink target)) = true
is_link _ = false

pub follow-end :
    (w : World) (flags : Flags) (bounds path : Bytes) (rounds : ℕ) (b : Buffer)
    → norm_path (add_slashes b) ≡ path
    → (flags.follow_syms && is_link (w.lstat path)) ≡ false
    → follow w flags bounds rounds b ≡ sandbox_check w flags bounds path
unfolding follow
follow-end w flags bounds path zero b e h = rw e
follow-end w flags bounds path (suc rounds) b e h = rw e (ground (arith, h))

-- The path that a plain absolute path is normalised to.
abbrev pub normal : Bytes → List Bytes
normal p = resolve (split_slash p) []

seat-room :
    (memory p : Bytes)
    → length p < length memory
    → size (split_slash p) ≤ length {A = ℕ} (0 ∷ drop 1 memory)
seat-room [] p room = absurd (omega arith)
seat-room (m ∷ memory) p room = omega (arith, size-split_slash p)

-- An absolute path without empty components that fits into the buffer, and that does not come down to
-- the root, a resource fork or VOLFS, is checked as the path of the components that it names, if links
-- are not to be followed or that path is not a link.
pub lookup-normal :
    (w : World) (flags : Flags) (bounds memory p : Bytes)
    → IsPlain p
    → length p < length memory
    → normal p ≢ []
    → has_fork (normal p) ≡ false
    → is_vol (normal p) ≡ false
    → (flags.follow_syms && is_link (w.lstat (path_of (normal p)))) ≡ false
    → is_in_sandbox w flags (some bounds) memory (some (b'/' ∷ p))
      ≡ sandbox_check w flags bounds (path_of (normal p))
unfolding is_in_sandbox names_of check_walked
lookup-normal w flags bounds memory p h room ne fork vol link = go (
    walk-resolve (split_slash p) (record { gap = []; parts = []; rest = 0 ∷ drop 1 memory }) h
      (seat-room memory p room) refl)
  where
    go :
        (b : Buffer) × (walk
              (split_slash p)
              (record { gap = []; parts = []; rest = 0 ∷ drop 1 memory })
            ≡ some b)
          × (names_of b.parts ≡ normal p)
          × (b.gap ≡ [])
        → check_walked w flags bounds
            (walk (split_slash p) (record { gap = []; parts = []; rest = 0 ∷ drop 1 memory }))
          ≡ sandbox_check w flags bounds (path_of (normal p))
    go (b, e, n, g) =
        ap (check_walked w flags bounds) e
        ∙ ap (λ b'. follow w flags bounds 9 (resolve_vol w b'))
            (strip-same b.gap b.parts b.rest (ap has_fork n ∙ fork))
        ∙ ap (follow w flags bounds 9) (vol-same w b.gap b.parts b.rest (ap is_vol n ∙ vol))
        ∙ follow-end w flags bounds (path_of (normal p)) 9 b
            (ap
                (λ gap.
                  norm_path (add_slashes (record { gap = gap; parts = b.parts; rest = b.rest })))
                g
              ∙ norm_path-parts b.parts b.rest (λ z. ne (sym n ∙ z))
                  (subst (λ ns. NoNull (path_of ns)) (sym n)
                    (path_of-NoNull (normal p) (resolve-NoNull (split_slash p) [] h tt)))
              ∙ ap path_of n)
            link
