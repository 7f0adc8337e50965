-- ===== src/Trace/Iterator.antt =====
-- The iterator over the bounds in base/src/darwintracelib1.0/darwintrace.c moves forward.
use macports.Prelude.{
  ℕ, suc, ◌<◌, [], ◌∷◌, Bytes, Bool, true, false, ◌==◌, if◌then◌else◌, length, drop, Option, none,
  some, arith, length-drop-le,
}
use macports.Prelude.Text.{c_string}
use macports.Trace.Rules.{Next, finished, entry, aborted, past_end, filemap_iter, on_command}

-- What the iterator leaves is shorter than what it was given.
abbrev pub IsShorter : ℕ → Next → Type 0
IsShorter n (entry path command rest) = length rest < n
IsShorter n _ = Unit

command-IsShorter : (path s : Bytes) (n : ℕ) → length s < n → IsShorter n (on_command path s)
unfolding on_command
command-IsShorter path [] n h = tt
command-IsShorter path (c ∷ rest) n h = go (c == 1)
  where
    go : (b : Bool) → IsShorter n (if b then aborted else entry path c (drop 1 rest))
    go true = tt
    go false = omega (arith, length-drop-le 1 rest)

abbrev IsRest : ℕ → Option (Bytes × Bytes) → Type 0
IsRest n none = Unit
IsRest n (some (k, rest)) = length rest < n

string-IsRest : (s : Bytes) → IsRest (length s) (c_string s)
unfolding c_string
string-IsRest [] = tt
string-IsRest (c ∷ s) = go (c == 0) (c_string s) (string-IsRest s)
  where
    go :
        (b : Bool) (o : Option (Bytes × Bytes))
        → IsRest (length s) o
        → IsRest (suc (length s)) (
            if b
            then some ([], s)
            else (elim o [ none ↦ none | some (k, rest) ↦ some (c ∷ k, rest) ]))
    go true o h = omega arith
    go false none h = tt
    go false (some (k, rest)) h = omega arith

pub iter-IsShorter : (bounds : Bytes) → IsShorter (length bounds) (filemap_iter bounds)
unfolding filemap_iter
iter-IsShorter [] = tt
iter-IsShorter (c ∷ s) = go (c == 0) (c_string (c ∷ s)) (string-IsRest (c ∷ s))
  where
    go :
        (b : Bool) (o : Option (Bytes × Bytes))
        → IsRest (suc (length s)) o
        → IsShorter (suc (length s)) (
            if b
            then finished
            else (elim o [ none ↦ past_end | some (path, rest) ↦ on_command path rest ]))
    go true o h = tt
    go false none h = tt
    go false (some (path, rest)) h = command-IsShorter path rest (suc (length s)) h
