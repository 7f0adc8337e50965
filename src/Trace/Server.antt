-- ===== src/Trace/Server.antt =====
-- base/src/pextlib1.0/tracelib.c: the names of the dependencies, and the answers to the messages of the
-- traced processes.
use macports.Prelude.{
  ℕ, zero, suc, [], ◌∷◌, ◌++◌, List, Bytes, Bool, true, false, ◌==◌, if◌then◌else◌, length, take,
  drop, ltb, Option, none, some, codes,
}
use macports.Prelude.Text.{c_string}
use macports.Trace.Sandbox.{filemap_allow, SandboxMemory, unset, allocated, freed}
use macports.Trace.Buffer.{until_null}
use macports.Trace.Lookup.{same_text}
use macports.Prelude.Words.{read_u32}

-- The variables `sandbox`, `depends` and `enable_fence`.
pub record Server : Type 0 where
  pub sandbox : SandboxMemory
  pub depends : Option Bytes
  pub enable_fence : Bool

-- What reg_entry_owner_id and reg_entry_propget answer, and whether there is a registry.
pub record Registry : Type 0 where
  pub is_attached : Bool
  pub owner_id : Bytes → ℕ
  pub owner_name : ℕ → Option Bytes

-- The loop of `TracelibSetDeps`, which does not look at the character behind a space.
unfoldable pub end_names : Bool → Bytes → Bytes
end_names behind [] = []
end_names true (c ∷ s) = c ∷ end_names false s
end_names false (c ∷ s) = elim (c == b' ') [
  | true ↦ 0 ∷ end_names true s
  | false ↦ c ∷ end_names false s
]

-- `TracelibSetDeps`
unfoldable pub set_deps : Bytes → Server → Server
set_deps d srv = record srv { depends = some (end_names false d ++ 0 ∷ 0 ∷ []) }

-- `TracelibEnableFence`
unfoldable pub enable : Server → Server
enable srv = record srv { enable_fence = true }

-- `TracelibCleanCmd`, as far as it has these variables. The sandbox is kept.
unfoldable pub clean : Server → Server
clean srv = record srv { depends = none; enable_fence = false }

pub data Search : Type 0 where
  found absent : Search
  past_end : Search
  out_of_fuel : Search

-- The loop over `depends`.
unfoldable pub search_names : ℕ → Bytes → Bytes → Search
search_names zero port names = out_of_fuel
search_names (suc fuel) port [] = past_end
search_names (suc fuel) port (c ∷ s) = if c == 0 then absent else (elim (c_string (c ∷ s)) [
  | none ↦ past_end
  | some (t, rest) ↦ elim (same_text t port) [ true ↦ found | false ↦ search_names fuel port rest ]
])

-- What the server does for a message: the strings that it sends, and the paths that it hands over to
-- Tcl.
pub data Event : Type 0 where
  sends : Bytes → Event
  adds_violation adds_unknown : Bytes → Event

-- The result of `process_line`: the socket is kept, and has data left, or it is to be closed. `undefined`
-- is a use of a null pointer or of freed memory, after some events.
pub data Line : Type 0 where
  kept : List Event → Bytes → Line
  close : Line
  undefined : List Event → Line
  never : Line

abbrev pub on_search : Bytes → List Event → Search → Line
on_search input events found = kept (events ++ sends (codes "+") ∷ []) input
on_search input events absent = kept (events ++ sends (codes "!") ∷ []) input
on_search input events past_end = undefined events
on_search input events out_of_fuel = never

abbrev has_names : Bytes → Bool
has_names [] = false
has_names (c ∷ s) = if c == 0 then false else true

-- The list of dependencies, for the owner of a file. Without a name, "#" has been sent, and a list that
-- is not empty is compared with a null pointer.
unfoldable pub check_names : Option Bytes → Option Bytes → Bytes → Line
check_names none none input = kept (sends (codes "#") ∷ sends (codes "!") ∷ []) input
check_names none (some names) input =
    if has_names names
    then undefined (sends (codes "#") ∷ [])
    else kept (sends (codes "#") ∷ sends (codes "!") ∷ []) input
check_names (some port) none input = kept (sends (codes "!") ∷ []) input
check_names (some port) (some names) input =
    on_search input [] (search_names (suc (length names)) port names)

-- `dep_check`. Without a registry it goes on with a null pointer.
unfoldable pub dep_check : Server → Registry → Bytes → Bytes → Line
dep_check srv reg path input =
    if reg.is_attached
    then (if reg.owner_id path == 0
        then kept (sends (codes "?") ∷ []) input
        else check_names (reg.owner_name (reg.owner_id path)) srv.depends input)
    else undefined (sends (codes "#") ∷ [])

abbrev pub allow_all : Bytes
allow_all = b'/' ∷ 0 ∷ filemap_allow ∷ 0 ∷ 0 ∷ []

-- `send_file_map`
unfoldable pub send_file_map : Server → Bytes → Line
send_file_map srv input =
    if srv.enable_fence
    then (elim srv.sandbox [
      | unset ↦ kept (sends [] ∷ []) input
      | allocated bounds ↦ kept (sends bounds ∷ []) input
      | freed ↦ undefined []
    ])
    else kept (sends allow_all ∷ []) input

-- What stands before a tab, and behind it.
unfoldable pub split_tab : Bytes → Option (Bytes × Bytes)
split_tab [] = none
split_tab (c ∷ s) = elim (c == b'\t') [
  | true ↦ some ([], s)
  | false ↦ elim (split_tab s) [ none ↦ none | some (command, f) ↦ some (c ∷ command, f) ]
]

unfoldable pub run_command : Server → Registry → Bytes → Bytes → Bytes → Line
run_command srv reg command f input =
    if same_text command (codes "filemap")
    then send_file_map srv input
    else if same_text command (codes "sandbox_unknown")
    then kept (adds_unknown f ∷ []) input
    else if same_text command (codes "sandbox_violation")
    then kept (adds_violation f ∷ []) input
    else if same_text command (codes "dep_check")
    then dep_check srv reg f input
    else close

-- BUFSIZE - 1
abbrev pub max_line : ℕ
max_line = 4095

abbrev run_line : Server → Registry → Bytes → Option (Bytes × Bytes) → Line
run_line srv reg input none = close
run_line srv reg input (some (command, f)) = run_command srv reg command f input

-- `process_line`, on all that the socket delivers until it ends.
unfoldable pub process_line : Server → Registry → Bytes → Line
process_line srv reg input = elim (read_u32 input) [
  | none ↦ close
  | some (len, rest) ↦
      if ltb max_line len
      then close
      else if ltb (length rest) len
      then close
      else run_line srv reg (drop len rest) (split_tab (until_null (take len rest)))
]
