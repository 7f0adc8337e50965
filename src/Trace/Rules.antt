-- ===== src/Trace/Rules.antt =====
-- The sandbox's bounds in base/src/darwintracelib1.0/darwintrace.c: the iterator over them, and the
-- test of a path against one of them.
use macports.Prelude.{
  ℕ, [], ◌∷◌, Bytes, Bool, true, false, ◌||◌, ◌&&◌, ◌==◌, if◌then◌else◌, drop, none, some,
}
use macports.Prelude.Text.{c_string}
use macports.Ctype.{deref}

-- What `__darwintrace_filemap_iter` returns: the null pointer, or a path, its command, and where the
-- iterator stands then. It aborts on the command 1.
pub data Next : Type 0 where
  finished : Next
  entry : Bytes → ℕ → Bytes → Next
  aborted : Next
  past_end : Next

unfoldable pub on_command : Bytes → Bytes → Next
on_command path [] = past_end
on_command path (command ∷ rest) =
    if command == 1 then aborted else entry path command (drop 1 rest)

unfoldable pub filemap_iter : Bytes → Next
filemap_iter [] = past_end
filemap_iter (c ∷ s) =
    if c == 0
    then finished
    else (elim (c_string (c ∷ s)) [ none ↦ past_end | some (path, after) ↦ on_command path after ])

-- The loop of `__darwintrace_pathbeginswith`. A string ends with its list.
unfoldable pub begins_with : Bytes → Bytes → Bool
begins_with str [] = deref str == b'/' || deref str == 0
begins_with [] (p ∷ prefix) = false
begins_with (s ∷ str) (p ∷ prefix) = let rest = begins_with str prefix in p == s && rest

-- `__darwintrace_pathbeginswith`: the empty prefix and `/` match every path.
unfoldable pub path_begins_with : Bytes → Bytes → Bool
path_begins_with str [] = true
path_begins_with str (p ∷ []) = p == b'/' || begins_with str (p ∷ [])
path_begins_with str (p ∷ q ∷ prefix) = begins_with str (p ∷ q ∷ prefix)
