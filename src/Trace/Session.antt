-- ===== src/Trace/Session.antt =====
-- Trace mode from the commands of base/src/pextlib1.0/tracelib.c to the checks of
-- base/src/darwintracelib1.0/darwintrace.c.
use macports.Prelude.{
  ◌^◌, ◌≡◌, ◌<◌, refl, ◌∙◌, ap, [], ◌∷◌, ◌++◌, List, Bytes, true, false, length, some, arith, codes,
}
use macports.Prelude.Text.{null-NoNull}
use macports.Trace.Sandbox.{set_sandbox}
use macports.Trace.Spelling.{Rule, allow, spell, encode}
use macports.Trace.Check.{Flags, World, verdict, sandbox_check}
use macports.Trace.Rules.{path_begins_with}
use macports.Trace.Decision.{act, decide, encoded_decide}
use macports.Trace.Lookup.{same_text}
use macports.Prelude.Words.{u32}
use macports.Trace.Wire.{frame}
use macports.Trace.Server.{
  Server, Registry, sends, kept, split_tab, run_command, send_file_map, allow_all, set_deps, enable,
}
use macports.Trace.Names.{join}
use macports.Trace.Protocol.{
  ask_server, answer_in, answer_pointer, get_filemap, process-frame, answer-sends,
}

ask-filemap :
    (srv : Server) (reg : Registry) (bounds : Bytes)
    → length bounds < 2 ^ 32
    → send_file_map srv [] ≡ kept (sends bounds ∷ []) []
    → ask_server srv reg (codes "filemap\t") ≡ bounds
unfolding ask_server run_command same_text split_tab frame u32
ask-filemap srv reg bounds room e =
    ap answer_in (
      process-frame srv reg (codes "filemap") [] [] (null-NoNull (codes "filemap\t") refl)
        (omega arith) refl
      ∙ e)
    ∙ answer-sends bounds [] room

get_filemap-sends :
    (srv : Server) (reg : Registry) (bounds : Bytes)
    → 0 < length bounds
    → length bounds < 2 ^ 32
    → send_file_map srv [] ≡ kept (sends bounds ∷ []) []
    → get_filemap srv reg ≡ some (bounds ++ 0 ∷ [])
unfolding get_filemap
get_filemap-sends srv reg [] pos room e = absurd (omega arith)
get_filemap-sends srv reg (c ∷ s) pos room e =
    ap answer_pointer (ask-filemap srv reg (c ∷ s) room e)

fence_off :
    (srv : Server)
    → srv.enable_fence ≡ false
    → send_file_map srv [] ≡ kept (sends allow_all ∷ []) []
unfolding send_file_map
fence_off srv off = rw off refl

open_check :
    (w : World) (flags : Flags) (path : Bytes)
    → sandbox_check w flags (allow_all ++ 0 ∷ []) path ≡ verdict true []
unfolding encode decide act path_begins_with
open_check w flags path =
    encoded_decide w flags path (0 ∷ []) ((codes "/", allow) ∷ [])
      ((null-NoNull (codes "/") refl, λ e. omega (arith, ap length e)), tt)
    ∙ ground arith

-- Without the fence, the traced process allows every path, and reports none.
pub no_fence :
    (srv : Server) (reg : Registry) (w : World) (flags : Flags) (path : Bytes)
    → srv.enable_fence ≡ false
    → (bounds : Bytes) × (get_filemap srv reg ≡ some bounds)
      × (sandbox_check w flags bounds path ≡ verdict true [])
no_fence srv reg w flags path off = (
  allow_all ++ 0 ∷ [],
  get_filemap-sends srv reg allow_all (omega arith) (omega arith) (fence_off srv off),
  open_check w flags path,
)

-- The server of a port: its bounds and its dependencies are set, and the fence is on.
abbrev pub set_up : Bytes → Rule → List Rule → List Bytes → Server → Server
set_up memory r rules names srv =
    enable (set_deps (join names) (record srv { sandbox = set_sandbox memory (spell r rules) }))
