-- ===== src/Trace/Lookup.antt =====
-- `__darwintrace_is_in_sandbox` of base/src/darwintracelib1.0/darwintrace.c: the path is made absolute
-- and normal, links are followed, and each path on the way is checked.
use macports.Prelude.{
  ℕ, zero, suc, ◌+◌, List, [], ◌∷◌, ◌++◌, Bytes, Bool, true, false, not, ◌&&◌, ◌==◌, if◌then◌else◌,
  leb, length, take, drop, Option, none, some, codes,
}
use macports.Trace.Check.{Flags, symlink, World, Verdict, verdict, abort, overrun, sandbox_check}
use macports.Trace.Buffer.{
  Buffer, pop, pop_all, flat, add_slashes, norm_path, split_slash, walk, seat,
}

-- MAXPATHLEN
abbrev pub max_path_len : ℕ
max_path_len = 1024

unfoldable pub same_text : Bytes → Bytes → Bool
same_text [] [] = true
same_text (c ∷ s) (d ∷ t) = let rest = same_text s t in c == d && rest
same_text _ _ = false

-- Without the last two components, whose bytes stay in the array.
abbrev take_off : Buffer → List (Bytes × ℕ) → Buffer
take_off b [] = record { gap = b.gap ++ flat b.parts []; parts = []; rest = b.rest }
take_off b (p ∷ parts) = pop (pop b)

-- "..namedfork" and "rsrc" at the end are taken off, and `dst` stays behind them. With components left,
-- it is moved before it is used again.
unfoldable pub strip_fork : Buffer → Buffer
unfolding same_text flat
strip_fork b = elim b.parts [
  | (c, _) ∷ (d, _) ∷ parts ↦
      if same_text (codes "..namedfork") d && same_text (codes "rsrc") c
      then take_off b parts
      else b
  | _ ↦ b
]

unfoldable pub first_part : List (Bytes × ℕ) → Bytes
first_part [] = []
first_part ((c, end) ∷ []) = c
first_part (p ∷ q ∷ parts) = first_part (q ∷ parts)

-- strncmp(3) of ".vol" and a component, for the length of the component.
unfoldable pub starts_vol : Bytes → Bytes → Bool
starts_vol vol [] = true
starts_vol [] (c ∷ s) = false
starts_vol (v ∷ vol) (c ∷ s) = let rest = starts_vol vol s in v == c && rest

abbrev pub has_three : List (Bytes × ℕ) → Bool
has_three (p ∷ q ∷ r ∷ parts) = true
has_three _ = false

-- A full path from the kernel in the buffer, cut where it does not fit. The array behind its first
-- character has `memory` in it.
unfoldable pub from_kernel : Bytes → Bytes → Buffer
unfolding seat split_slash
from_kernel path memory =
    seat (split_slash (take (length (drop 1 memory)) path)) (drop (length path + 1) memory) []

abbrev keep_dst : ℕ → Buffer → Buffer
keep_dst used b = elim b.parts [
  | [] ↦ record { gap = take used b.rest; parts = []; rest = drop used b.rest }
  | p ∷ parts ↦ b
]

-- A path in VOLFS is replaced by the full path, where the kernel has one. Where that is the root, `dst`
-- stays behind the components of the path.
unfoldable pub resolve_vol : World → Buffer → Buffer
unfolding norm_path starts_vol first_part from_kernel flat
resolve_vol w b =
    if has_three b.parts && starts_vol (codes ".vol") (first_part b.parts)
    then (elim (w.full_path (norm_path (add_slashes b))) [
      | none ↦ add_slashes b
      | some path ↦
          keep_dst (length (b.gap ++ flat b.parts []))
            (from_kernel path (b.gap ++ flat (add_slashes b).parts b.rest))
    ])
    else b

-- The messages that were sent before.
abbrev pub after : List Bytes → Verdict → Verdict
after log (verdict ok log') = verdict ok (log ++ log')
after log v = v

-- The target of a link, in place of the last component or, if it is absolute, of all of them. The
-- null character behind the target needs room in its buffer too.
unfoldable pub expand : Bytes → Buffer → Option Buffer
unfolding walk split_slash pop_all
expand [] b = walk (split_slash []) (pop b)
expand (c ∷ target) b =
    if leb max_path_len (length (c ∷ target))
    then none
    else if c == b'/'
    then walk (split_slash target) (pop_all b)
    else walk (split_slash (c ∷ target)) (pop b)

-- The check of a link, and what follows it.
abbrev pub if_allowed : Verdict → (List Bytes → Verdict) → Verdict
if_allowed (verdict true log) next = next log
if_allowed (verdict false log) next = verdict false log
if_allowed v next = v

-- The loop that follows links; `rounds` is how often it still does.
unfoldable pub follow : World → Flags → Bytes → ℕ → Buffer → Verdict
unfolding norm_path expand
follow w flags bounds zero b = sandbox_check w flags bounds (norm_path (add_slashes b))
follow w flags bounds (suc rounds) b =
    if not flags.follow_syms
    then sandbox_check w flags bounds (norm_path (add_slashes b))
    else (elim (w.lstat (norm_path (add_slashes b))) [
      | some (symlink target) ↦
          if_allowed (sandbox_check w flags bounds (norm_path (add_slashes b))) (λ log.
            elim (expand target (add_slashes b)) [
              | none ↦ overrun
              | some b' ↦ after log (follow w flags bounds rounds b')
            ])
      | _ ↦ sandbox_check w flags bounds (norm_path (add_slashes b))
    ])

-- What follows the walk over the path.
unfoldable pub check_walked : World → Flags → Bytes → Option Buffer → Verdict
unfolding strip_fork resolve_vol follow
check_walked w flags bounds none = overrun
check_walked w flags bounds (some b) = follow w flags bounds 9 (resolve_vol w (strip_fork b))

-- `memory` is what the array has at first behind its first character. A null pointer is `none`.
unfoldable pub is_in_sandbox : World → Flags → Option Bytes → Bytes → Option Bytes → Verdict
unfolding check_walked walk split_slash from_kernel
is_in_sandbox w flags none memory path = verdict true []
is_in_sandbox w flags (some bounds) memory none = verdict true []
is_in_sandbox w flags (some bounds) memory (some []) = verdict true []
is_in_sandbox w flags (some bounds) memory (some (c ∷ path)) =
    if c == b'/'
    then check_walked w flags bounds
        (walk (split_slash path) (record { gap = []; parts = []; rest = 0 ∷ drop 1 memory }))
    else (elim (w.full_path (codes ".")) [
      | none ↦ abort
      | some cwd ↦
          check_walked w flags bounds
            (walk (split_slash (c ∷ path)) (from_kernel cwd (0 ∷ drop 1 memory)))
    ])
