-- ===== src/Trace/Sandbox.antt =====
-- `TracelibSetSandboxCmd` of base/src/pextlib1.0/tracelib.c: the list of the sandbox's bounds, as Tcl
-- hands it over, is turned into the form that darwintrace reads.
use macports.Prelude.{ℕ, [], ◌∷◌, ◌++◌, Bytes, ◌==◌, ◌||◌, if◌then◌else◌, length, drop}

-- The constants of base/src/darwintracelib1.0/sandbox_actions.h.
abbrev pub filemap_allow : ℕ
filemap_allow = 0

abbrev pub filemap_ask : ℕ
filemap_ask = 2

abbrev pub filemap_deny : ℕ
filemap_deny = 3

pub data State : Type 0 where
  normal action escape : State

-- The messages of the errors.
pub data Refusal : Type 0 where
  unexpected_colon unknown_escape unknown_control : Refusal

-- What one character does: it changes the state, writes a byte too, or ends the command.
pub data Move : Type 0 where
  skip : State → Move
  emit : ℕ → State → Move
  refuse : Refusal → Move

abbrev control : ℕ → ℕ
control c = if c == b'+' then filemap_allow else if c == b'-' then filemap_deny else filemap_ask

unfoldable pub on_char : State → ℕ → Move
on_char state c =
    if c == b'\\'
    then (elim state [ escape ↦ emit b'\\' normal | _ ↦ skip escape ])
    else if c == b':'
    then (elim state [
      | escape ↦ emit b':' normal
      | action ↦ emit 0 normal
      | normal ↦ refuse unexpected_colon
    ])
    else if c == b'='
    then (elim state [ escape ↦ emit b'=' normal | _ ↦ emit 0 action ])
    else if c == b'+' || (c == b'-' || c == b'?')
    then (elim state [
      | action ↦ emit (control c) action
      | escape ↦ emit c escape
      | normal ↦ emit c normal
    ])
    else (elim state [
      | escape ↦ refuse unknown_escape
      | action ↦ refuse unknown_control
      | normal ↦ emit c normal
    ])

pub data Written : Type 0 where
  written : Bytes → Written
  refused : Refusal → Written

abbrev pub after_byte : ℕ → Written → Written
after_byte b (written out) = written (b ∷ out)
after_byte b (refused r) = refused r

-- The loop over the characters, with the two null characters at the end.
unfoldable pub scan : State → Bytes → Written
scan state [] = written (0 ∷ 0 ∷ [])
scan state (c ∷ s) = elim (on_char state c) [
  | skip state' ↦ scan state' s
  | emit b state' ↦ after_byte b (scan state' s)
  | refuse r ↦ refused r
]

-- What `sandbox` points to, with `sandboxLength` bytes behind it. The memory is allocated for
-- `sandboxLength` bytes, holds `memory` at first, and is not written to its end where the list has
-- escapes. After an error the pointer stays, and the memory is freed.
pub data SandboxMemory : Type 0 where
  unset : SandboxMemory
  allocated : Bytes → SandboxMemory
  freed : SandboxMemory

unfoldable pub set_sandbox : Bytes → Bytes → SandboxMemory
set_sandbox memory src = elim (scan normal src) [
  | written out ↦ allocated (out ++ drop (length out) memory)
  | refused r ↦ freed
]
