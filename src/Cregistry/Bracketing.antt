-- ===== src/Cregistry/Bracketing.antt =====
-- The transactions of a registry do not nest.
use macports.Prelude.{◌≡◌, [], ◌∷◌, List, ◌||◌, not, Bool, true, false, Option, none, some}
use macports.Cregistry.Transactions.{
  Sql, begin, begin_immediate, commit, rollback, RegRegistry, Called,
}

-- The state of a connection to sqlite.
pub data Mode : Type 0 where
  idle reading writing : Mode

abbrev pub start_in : Mode → Option Mode → Option Mode
start_in m (some idle) = some m
start_in m _ = none

abbrev pub end_in : Option Mode → Option Mode
end_in (some reading) = some idle
end_in (some writing) = some idle
end_in _ = none

-- Where statements lead, the last first, none if a transaction starts in another one or ends outside
-- of one.
unfoldable pub mode_of : List Sql → Option Mode
mode_of [] = some idle
mode_of (begin ∷ sql) = start_in reading (mode_of sql)
mode_of (begin_immediate ∷ sql) = start_in writing (mode_of sql)
mode_of (commit ∷ sql) = end_in (mode_of sql)
mode_of (rollback ∷ sql) = end_in (mode_of sql)

-- What the bits of the status say.
abbrev pub mode_by : Bool → Bool → Option Mode
mode_by false false = some idle
mode_by true false = some reading
mode_by true true = some writing
mode_by false true = none

-- The statements are well bracketed, and the bits of the status say where they lead.
abbrev pub IsBracketed : RegRegistry → Type 0
IsBracketed reg =
    (mode_of reg.executed ≡ mode_by reg.reg_transacting reg.reg_can_write)
    × ((reg.reg_transacting || not reg.reg_can_write) ≡ true)

abbrev CallIsBracketed : Called → Type 0
CallIsBracketed none = Unit
CallIsBracketed (some (result, reg)) = IsBracketed reg

abbrev ResultIsBracketed : Option RegRegistry → Type 0
ResultIsBracketed none = Unit
ResultIsBracketed (some reg) = IsBracketed reg
