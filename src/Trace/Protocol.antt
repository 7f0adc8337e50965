-- ===== src/Trace/Protocol.antt =====
-- The client in base/src/darwintracelib1.0/darwintrace.c and the server in
-- base/src/pextlib1.0/tracelib.c, together.
use macports.Prelude.{
  ◌^◌, ◌≡◌, ◌<◌, ◌≤◌, refl, ap, [], ◌∷◌, ◌++◌, List, Bytes, length, Option, none, some,
  append_assoc, length-append, arith, codes,
}
use macports.Prelude.Text.{NoNull}
use macports.Trace.Buffer.{until_null}
use macports.Prelude.Words.{u32, read_u32, take-append, drop-append, read-u32}
use macports.Trace.Wire.{frame, receive, receive-frame}
use macports.Trace.Server.{
  Server, Registry, Event, sends, adds_violation, adds_unknown, Line, kept, undefined, process_line,
  split_tab, run_command,
}

-- What the server's messages are on the socket.
unfoldable pub replies : List Event → Bytes
replies [] = []
replies (sends s ∷ events) = frame s ++ replies events
replies (adds_violation path ∷ events) = replies events
replies (adds_unknown path ∷ events) = replies events

abbrev pub first_message : Option (Bytes × Bytes) → Bytes
first_message none = []
first_message (some (s, rest)) = s

abbrev pub answer_in : Line → Bytes
answer_in (kept events rest) = first_message (receive (replies events))
answer_in (undefined events) = first_message (receive (replies events))
answer_in _ = []

-- `__send` with an answer: no answer is none of the answers that the client knows. The request is all
-- that the server has to read.
unfoldable pub ask_server : Server → Registry → Bytes → Bytes
ask_server srv reg request = answer_in (process_line srv reg (frame request))

-- What `__send` returns for an answer: a null pointer for an empty one, and else the answer with a null
-- character behind it.
abbrev pub answer_pointer : Bytes → Option Bytes
answer_pointer [] = none
answer_pointer (c ∷ s) = some (c ∷ s ++ 0 ∷ [])

-- `__darwintrace_get_filemap`
unfoldable pub get_filemap : Server → Registry → Option Bytes
get_filemap srv reg = answer_pointer (ask_server srv reg (codes "filemap\t"))

until_null_self : (s : Bytes) → NoNull s → until_null s ≡ s
unfolding until_null
until_null_self [] h = refl
until_null_self (c ∷ s) h = ground (arith, h.0, until_null_self s h.1)

-- A message of the client is read to its end and run, whatever follows it.
pub process-frame :
    (srv : Server) (reg : Registry) (command f rest : Bytes)
    → NoNull (command ++ b'\t' ∷ f)
    → length (command ++ b'\t' ∷ f) ≤ 4095
    → split_tab (command ++ b'\t' ∷ f) ≡ some (command, f)
    → process_line srv reg (frame (command ++ b'\t' ∷ f) ++ rest)
      ≡ run_command srv reg command f rest
unfolding process_line frame
process-frame srv reg command f rest h room tab =
    let s : Bytes = command ++ b'\t' ∷ f in
    ground (
      arith,
      ap read_u32 (append_assoc (u32 (length s)) s rest),
      read-u32 (length s) (s ++ rest) (omega arith),
      length-append s rest,
      take-append s rest,
      drop-append s rest,
      until_null_self s h,
      tab,
    )

pub answer-sends : (s rest : Bytes) → length s < 2 ^ 32 → answer_in (kept (sends s ∷ []) rest) ≡ s
unfolding replies
answer-sends s rest h = ap first_message (receive-frame s [] h)
