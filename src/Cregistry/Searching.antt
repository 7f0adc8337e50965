-- ===== src/Cregistry/Searching.antt =====
-- The text of the query in `reg_entry_search` of base/src/cregistry/entry.c.
use macports.Prelude.{
  ℕ, ◌+◌, ◌≡◌, ◌≤◌, sym, ◌∙◌, ap, [], ◌∷◌, ◌++◌, List, Bytes, length, Option, none, some, codes,
  arith, append-nil, append_assoc, length-append,
}
use macports.Cregistry.Growth.{RegString, reg_strcat}
use macports.Cregistry.Query.{
  reg_strategy_op, query, overrun, no_memory, invalid_strategy, add_conditions, select_ports,
  search_query,
}
use macports.Cregistry.Appending.{appended, strcat-fits, space_for-le}

-- The conditions, with a word before each: the given one before the first, and AND before the others.
unfoldable pub clauses : (Bytes → Bytes → Bytes) → Bytes → List (Bytes × Bytes) → Bytes
clauses cond kwd [] = []
clauses cond kwd ((key, val) ∷ pairs) = kwd ++ (cond key val ++ clauses cond (codes " AND ") pairs)

appended-fits :
    (dst : RegString) (src : Bytes) → length (appended dst src).text ≤ (appended dst src).space
appended-fits dst src =
    omega (arith, length-append dst.text src, space_for-le dst.space (length dst.text + length src))

add-clauses :
    (mprintf : Bytes → Bytes → Option Bytes) (cond : Bytes → Bytes → Bytes) (kwd : Bytes)
    (pairs : List (Bytes × Bytes)) (dst : RegString)
    → ((key val : Bytes) → mprintf key val ≡ some (cond key val))
    → length dst.text ≤ dst.space
    → add_conditions mprintf kwd pairs dst ≡ query (dst.text ++ clauses cond kwd pairs)
unfolding add_conditions clauses
add-clauses mprintf cond kwd [] dst h fits = ap query (sym (append-nil dst.text))
add-clauses mprintf cond kwd ((key, val) ∷ pairs) dst h fits =
    ap
      (λ o. elim o [
        | none ↦ no_memory
        | some c ↦ elim (reg_strcat dst kwd) [
          | none ↦ overrun
          | some d ↦ elim (reg_strcat d c) [
            | none ↦ overrun
            | some d' ↦ add_conditions mprintf (codes " AND ") pairs d'
          ]
        ]
      ])
      (h key val)
    ∙ ap
        (λ o. elim o [
          | none ↦ overrun
          | some d ↦ elim (reg_strcat d (cond key val)) [
            | none ↦ overrun
            | some d' ↦ add_conditions mprintf (codes " AND ") pairs d'
          ]
        ])
        (strcat-fits dst kwd fits)
    ∙ ap
        (λ o. elim o [ none ↦ overrun | some d' ↦ add_conditions mprintf (codes " AND ") pairs d' ])
        (strcat-fits (appended dst kwd) (cond key val) (appended-fits dst kwd))
    ∙ add-clauses mprintf cond (codes " AND ") pairs (appended (appended dst kwd) (cond key val)) h
        (appended-fits (appended dst kwd) (cond key val))
    ∙ ap query (
        append_assoc (dst.text ++ kwd) (cond key val) (clauses cond (codes " AND ") pairs)
        ∙ append_assoc dst.text kwd (cond key val ++ clauses cond (codes " AND ") pairs))

-- A search builds its query without a write past the end of the buffer, for every number of keys and
-- values of every length: all ports, where the conditions that sqlite3_mprintf writes hold together. The
-- strategy is a valid one, and sqlite3_mprintf has memory.
pub search_query-clauses :
    (mprintf : Bytes → Bytes → Bytes → Option Bytes) (cond : Bytes → Bytes → Bytes) (strategy : ℕ)
    (op : Bytes) (pairs : List (Bytes × Bytes))
    → reg_strategy_op strategy ≡ some op
    → ((key val : Bytes) → mprintf op key val ≡ some (cond key val))
    → search_query mprintf strategy pairs
      ≡ query (select_ports ++ clauses cond (codes " WHERE ") pairs)
unfolding search_query
search_query-clauses mprintf cond strategy op pairs valid h =
    ap
      (λ o. elim o [
        | none ↦ invalid_strategy
        | some op' ↦
            add_conditions (mprintf op') (codes " WHERE ") pairs
              (record { text = select_ports; space = length select_ports })
      ])
      valid
    ∙ add-clauses (mprintf op) cond (codes " WHERE ") pairs
        (record { text = select_ports; space = length select_ports }) h (omega arith)
