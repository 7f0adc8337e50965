-- ===== src/Trace/Buffer.antt =====
-- The buffer `normPath` and the array `pathComponents` of `__darwintrace_is_in_sandbox` in
-- base/src/darwintracelib1.0/darwintrace.c.
use macports.Prelude.{
  ℕ, ◌+◌, List, [], ◌∷◌, ◌++◌, Bytes, Bool, true, false, ◌==◌, if◌then◌else◌, length, drop, ltb,
  map, Option, none, some,
}

-- The buffer behind its first character, a slash. `parts` are the components with the character
-- behind each, the last one first; `gap` stands before them, and is empty unless `dst` is still where
-- components were that have been taken off; `rest` is what stands behind them, from `dst` to the end of
-- the array, where earlier components may still be.
pub record Buffer : Type 0 where
  pub gap : Bytes
  pub parts : List (Bytes × ℕ)
  pub rest : Bytes

-- A token is copied behind the components. `none` is a write past the end of the array.
unfoldable pub push : Bytes → Buffer → Option Buffer
push token b =
    if ltb (length b.rest) (length token + 1)
    then none
    else some (record b { parts = (token, 0) ∷ b.parts; rest = drop (length token + 1) b.rest })

abbrev pub pop_parts : Bytes → List (Bytes × ℕ) → Bytes → Buffer
pop_parts gap [] rest = record { gap = gap; parts = []; rest = rest }
pop_parts gap ((c, end) ∷ []) rest = record { gap = []; parts = []; rest = gap ++ c ++ end ∷ rest }
pop_parts gap ((c, end) ∷ p ∷ parts) rest = record {
  gap = gap;
  parts = p ∷ parts;
  rest = c ++ end ∷ rest;
}

-- `numComponents--`, unless it is 0. `dst` goes back to the end of the last component, or to the second
-- character of the array.
abbrev pub pop : Buffer → Buffer
pop b = pop_parts b.gap b.parts b.rest

-- The array from its second character on.
unfoldable pub flat : List (Bytes × ℕ) → Bytes → Bytes
flat [] rest = rest
flat ((c, end) ∷ parts) rest = flat parts (c ++ end ∷ rest)

-- `numComponents = 0`
unfoldable pub pop_all : Buffer → Buffer
unfolding flat
pop_all b = record { gap = []; parts = []; rest = b.gap ++ flat b.parts b.rest }

abbrev pub slash_part : Bytes × ℕ → Bytes × ℕ
slash_part (c, end) = (c, b'/')

abbrev pub slash_parts : List (Bytes × ℕ) → List (Bytes × ℕ)
slash_parts [] = []
slash_parts ((c, end) ∷ parts) = (c, 0) ∷ map slash_part parts

-- The slashes between the components, and the null character behind the last one.
abbrev pub add_slashes : Buffer → Buffer
add_slashes b = record b { parts = slash_parts b.parts }

unfoldable pub until_null : Bytes → Bytes
until_null [] = []
until_null (c ∷ s) = let rest = until_null s in if c == 0 then [] else c ∷ rest

-- The string `normPath`.
unfoldable pub norm_path : Buffer → Bytes
unfolding flat until_null
norm_path b = b'/' ∷ until_null (b.gap ++ flat b.parts b.rest)

-- The tokens that repeated calls of strcspn(3) find, the empty ones among them.
unfoldable pub split_slash : Bytes → List Bytes
split_slash [] = [] ∷ []
split_slash (c ∷ s) = elim (c == b'/') [
  | true ↦ [] ∷ split_slash s
  | false ↦ elim (split_slash s) [ [] ↦ (c ∷ []) ∷ [] | t ∷ ts ↦ (c ∷ t) ∷ ts ]
]

abbrev pub is_dot : Bytes → Bool
is_dot (c ∷ []) = c == b'.'
is_dot _ = false

abbrev pub is_dot_dot : Bytes → Bool
is_dot_dot (c ∷ d ∷ []) = if c == b'.' then d == b'.' else false
is_dot_dot _ = false

-- One token that is not empty.
unfoldable pub step : Bytes → Buffer → Option Buffer
unfolding push
step token b =
    if is_dot token then some b else if is_dot_dot token then some (pop b) else push token b

-- The loop over the tokens of a path or of a link, which ends at an empty token.
unfoldable pub walk : List Bytes → Buffer → Option Buffer
unfolding step
walk [] b = some b
walk ([] ∷ tokens) b = some b
walk ((c ∷ t) ∷ tokens) b = elim (step (c ∷ t) b) [ none ↦ none | some b' ↦ walk tokens b' ]

unfoldable pub unsplit : List Bytes → Bytes
unsplit [] = []
unsplit (t ∷ []) = t
unsplit (t ∷ u ∷ tokens) = t ++ b'/' ∷ unsplit (u ∷ tokens)

-- The loop over the tokens of a full path from the kernel, which is in the buffer already; `memory`
-- is what stands behind it.
unfoldable pub seat : List Bytes → Bytes → List (Bytes × ℕ) → Buffer
unfolding unsplit
seat [] memory parts = record { gap = []; parts = parts; rest = memory }
seat ([] ∷ tokens) memory parts = record {
  gap = [];
  parts = parts;
  rest = unsplit ([] ∷ tokens) ++ 0 ∷ memory;
}
seat ((c ∷ t) ∷ tokens) memory parts = seat tokens memory ((c ∷ t, 0) ∷ parts)
