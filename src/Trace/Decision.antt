-- ===== src/Trace/Decision.antt =====
-- The check of base/src/darwintracelib1.0/darwintrace.c against the list of bounds.
use macports.Prelude.{
  ℕ, zero, suc, ◌≡◌, ◌<◌, ◌≤◌, refl, [], ◌∷◌, ◌++◌, List, Bytes, true, false, ◌||◌, ◌&&◌,
  if◌then◌else◌, arith, All, length, length-append, drop,
}
use macports.Trace.Sandbox.{allocated, set_sandbox}
use macports.Trace.Rules.{path_begins_with}
use macports.Trace.Spelling.{
  Action, allow, ask, deny, Rule, code, spell, encode, scan-spell, IsBound, iter-encode,
  iter-encode_nil,
}
use macports.Trace.Check.{
  Flags, World, Verdict, verdict, report, sandbox_violation, on_match, on_dependency,
  dependency_check, check_bounds, is_directory, is_root, sandbox_check,
}

-- What one of the bounds says of a path below it.
unfoldable pub act : World → Flags → Bytes → Action → Verdict
act w flags path allow = verdict true []
act w flags path ask = on_dependency flags path (dependency_check w path)
act w flags path deny = verdict false (report flags sandbox_violation path)

-- What a list of bounds says of a path: the first bound that has the path below it decides, and where
-- there is none the access is denied.
unfoldable pub decide : World → Flags → Bytes → List Rule → Verdict
decide w flags path [] = verdict false (report flags sandbox_violation path)
decide w flags path ((prefix, a) ∷ rules) =
    let rest = decide w flags path rules in
    if path_begins_with path prefix then act w flags path a else rest

match-act :
    (w : World) (flags : Flags) (path : Bytes) (a : Action)
    → on_match w flags path (code a) ≡ act w flags path a
unfolding on_match act
match-act w flags path allow = refl
match-act w flags path ask = refl
match-act w flags path deny = refl

abbrev pub IsBounds : List Rule → Type 0
IsBounds rules = All IsBound rules

check_bounds-decide :
    (w : World) (flags : Flags) (path rest : Bytes) (rules : List Rule) (fuel : ℕ)
    → IsBounds rules
    → length rules < fuel
    → check_bounds w flags path fuel (encode rules ++ rest) ≡ decide w flags path rules
unfolding check_bounds decide
check_bounds-decide w flags path rest rules zero h f = absurd (omega arith)
check_bounds-decide w flags path rest [] (suc fuel) h f = ground (arith, iter-encode_nil rest)
check_bounds-decide w flags path rest ((prefix, a) ∷ rules) (suc fuel) h f = ground (
  arith,
  iter-encode prefix a rules rest h.0,
  match-act w flags path a,
  check_bounds-decide w flags path rest rules fuel h.1,
)

length-encode-le : (rules : List Rule) (rest : Bytes) → length rules ≤ length (encode rules ++ rest)
unfolding encode
length-encode-le [] rest = omega arith
length-encode-le ((prefix, a) ∷ rules) rest = omega (
  arith,
  length-encode-le rules rest,
  length-append (prefix ++ 0 ∷ code a ∷ 0 ∷ encode rules) rest,
  length-append prefix (0 ∷ code a ∷ 0 ∷ encode rules),
  length-append (encode rules) rest,
)

-- With an encoded list in memory, whatever follows it, a check is that of `decide`.
pub encoded_decide :
    (w : World) (flags : Flags) (path rest : Bytes) (rules : List Rule)
    → IsBounds rules
    → sandbox_check w flags (encode rules ++ rest) path ≡ (
        if is_root path || (flags.allow_dir && is_directory (w.lstat path))
        then verdict true []
        else decide w flags path rules)
unfolding sandbox_check
encoded_decide w flags path rest rules h = ground (
  arith,
  check_bounds-decide w flags path rest rules (suc (length (encode rules ++ rest))) h,
  length-encode-le rules rest,
)

-- The list of bounds that porttrace.tcl spells, once tracelib has read it, decides every check of the
-- traced process in the way of `decide`, whatever the memory behind it holds: the first bound that has
-- the path below it decides, with its report, except that the root is always allowed, and so is a
-- directory where the flags say so. The paths of the bounds are not empty and have no null characters.
pub bounds_decide :
    (w : World) (flags : Flags) (memory path : Bytes) (r : Rule) (rules : List Rule)
    → IsBounds (r ∷ rules)
    → (bounds : Bytes) × (set_sandbox memory (spell r rules) ≡ allocated bounds)
      × (sandbox_check w flags bounds path ≡ (
          if is_root path || (flags.allow_dir && is_directory (w.lstat path))
          then verdict true []
          else decide w flags path (r ∷ rules)))
unfolding set_sandbox
bounds_decide w flags memory path r rules h =
    let rest = drop (length (encode (r ∷ rules))) memory in
    (
      encode (r ∷ rules) ++ rest,
      ground (arith, scan-spell r rules),
      encoded_decide w flags path rest (r ∷ rules) h,
    )
