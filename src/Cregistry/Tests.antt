-- ===== src/Cregistry/Tests.antt =====
-- Runs of the buffers and queries of the registry, and instances of the theorems on them.
use macports.Prelude.{
  ◌≡◌, ◌*◌, ◌^◌, ◌≤◌, ◌⊎◌, refl, [], ◌∷◌, ◌++◌, List, Bytes, Option, some, true, false, codes,
  arith, length, ℕ,
}
use macports.Cregistry.Transactions.{
  begin, begin_immediate, commit, RegRegistry, sqlite_ok, sqlite_busy, sqlite_failed, RegCall,
  call_start_read, call_start_write, call_commit, call_rollback, call_detach,
}
use macports.Cregistry.Growth.{RegString}
use macports.Cregistry.Query.{reg_strategy_op, query, select_ports, search_query}
use macports.Cregistry.Objects.{Answer, row, done, busy, objects}
use macports.Cregistry.Appending.{strcat_all, concat, reallocs, strcat_all-concat, read_rows}
use macports.Cregistry.Searching.{clauses, search_query-clauses}

abbrev sample_string : RegString
sample_string = record { text = codes "ab"; space = 2 }

abbrev sample_texts : List Bytes
sample_texts = codes "c" ∷ codes "defgh" ∷ []

strcat_all-concat_example :
    (dst' : RegString) × (strcat_all sample_texts sample_string ≡ some dst')
    × (dst'.text ≡ codes "ab" ++ concat sample_texts)
    × (2 * 2 ^ reallocs sample_texts sample_string ≤ dst'.space)
    × ((dst'.space ≡ 2) ⊎ (dst'.space ≤ length dst'.text * 2))
strcat_all-concat_example = strcat_all-concat sample_texts sample_string (omega arith)

-- What sqlite3_mprintf writes for the exact strategy and texts without quotes.
abbrev plain_condition : Bytes → Bytes → Bytes
plain_condition key val = key ++ (codes " = '" ++ (val ++ codes "'"))

abbrev sample_mprintf : Bytes → Bytes → Bytes → Option Bytes
sample_mprintf op key val = some (plain_condition key val)

exact_op : reg_strategy_op 1 ≡ some (codes "%q = '%q'")
unfolding reg_strategy_op
exact_op = refl

search_query-clauses_example :
    search_query sample_mprintf 1 ((codes "name", codes "zlib") ∷ (codes "epoch", codes "0") ∷ [])
    ≡ query (
        select_ports
        ++ clauses plain_condition
            (codes " WHERE ")
            ((codes "name", codes "zlib") ∷ (codes "epoch", codes "0") ∷ []))
search_query-clauses_example =
    search_query-clauses sample_mprintf plain_condition 1 (codes "%q = '%q'")
      ((codes "name", codes "zlib") ∷ (codes "epoch", codes "0") ∷ []) exact_op (λ key val. refl)

-- The conditions in full.
clauses_text :
    clauses plain_condition
      (codes " WHERE ")
      ((codes "name", codes "zlib") ∷ (codes "epoch", codes "0") ∷ [])
    ≡ codes " WHERE name = 'zlib' AND epoch = '0'"
unfolding clauses
clauses_text = refl

abbrev sample_answers : List (Answer ℕ)
sample_answers = row (some 3) ∷ busy ∷ row (some 4) ∷ done ∷ []

rows_in_order : read_rows sample_answers [] ≡ objects (3 ∷ 4 ∷ [])
unfolding read_rows
rows_in_order = refl

abbrev closed_registry : RegRegistry
closed_registry = record {
  reg_attached = true;
  reg_transacting = false;
  reg_can_write = false;
  executed = [];
}

-- A transaction that is open at the second start, a commit that has to wait, and a database that is in
-- use when it is to be detached.
abbrev sample_calls : List RegCall
sample_calls =
    call_start_write (sqlite_busy ∷ sqlite_ok ∷ [])
    ∷ call_start_read (sqlite_ok ∷ [])
    ∷ call_commit (sqlite_busy ∷ sqlite_ok ∷ [])
    ∷ call_rollback (sqlite_ok ∷ [])
    ∷ call_start_read (sqlite_ok ∷ [])
    ∷ call_detach true (sqlite_failed ∷ [])
    ∷ []

abbrev reading_registry : RegRegistry
reading_registry = record closed_registry {
  reg_transacting = true;
  executed = begin ∷ commit ∷ begin_immediate ∷ [];
}
