-- ===== src/Cregistry/Query.antt =====
-- `reg_strategy_op` of base/src/cregistry/util.c, and the query that `reg_entry_search` of
-- base/src/cregistry/entry.c builds. sqlite3_mprintf is an argument.
use macports.Prelude.{
  ℕ, [], ◌∷◌, List, Bytes, ◌==◌, if◌then◌else◌, length, Option, none, some, codes,
}
use macports.Cregistry.Growth.{RegString, reg_strcat}

-- The constants of `reg_strategy` are 1 to 4.
unfoldable pub reg_strategy_op : ℕ → Option Bytes
reg_strategy_op strategy =
    if strategy == 1
    then some (codes "%q = '%q'")
    else if strategy == 2
    then some (codes "%q GLOB '%q'")
    else if strategy == 3
    then some (codes "REGEXP(%q, '%q')")
    else if strategy == 4
    then some (codes "%q IS NULL")
    else none

-- The query, or why there is none: an invalid strategy, no memory in sqlite3_mprintf, or a write past the
-- end of the buffer.
pub data Search : Type 0 where
  query : Bytes → Search
  invalid_strategy : Search
  no_memory : Search
  overrun : Search

-- The loop over the keys and values.
unfoldable pub add_conditions :
    (Bytes → Bytes → Option Bytes) → Bytes → List (Bytes × Bytes) → RegString → Search
add_conditions mprintf kwd [] dst = query dst.text
add_conditions mprintf kwd ((key, val) ∷ pairs) dst = elim (mprintf key val) [
  | none ↦ no_memory
  | some cond ↦ elim (reg_strcat dst kwd) [
    | none ↦ overrun
    | some dst' ↦ elim (reg_strcat dst' cond) [
      | none ↦ overrun
      | some dst'' ↦ add_conditions mprintf (codes " AND ") pairs dst''
    ]
  ]
]

abbrev pub select_ports : Bytes
select_ports = codes "SELECT id FROM registry.ports"

-- `reg_entry_search`, up to the query.
unfoldable pub search_query :
    (Bytes → Bytes → Bytes → Option Bytes) → ℕ → List (Bytes × Bytes) → Search
search_query mprintf strategy pairs = elim (reg_strategy_op strategy) [
  | none ↦ invalid_strategy
  | some op ↦
      add_conditions (mprintf op) (codes " WHERE ") pairs
        (record { text = select_ports; space = length select_ports })
]
