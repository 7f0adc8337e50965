-- ===== src/Trace/Wire.antt =====
-- The messages on the socket between base/src/pextlib1.0/tracelib.c and
-- base/src/darwintracelib1.0/darwintrace.c, on a host that stores the low byte of a number first.
use macports.Prelude.Words.{u32, read_u32, read-u32, take-append, drop-append}
use macports.Prelude.{
  ◌^◌, ◌≡◌, ◌<◌, ap, ◌++◌, Bytes, if◌then◌else◌, length, take, drop, ltb, Option, none, some, arith,
  append_assoc, length-append,
}

-- A message behind its length: `__send` and `answer_s`.
unfoldable pub frame : Bytes → Bytes
frame s = u32 (length s) ++ s

-- Reading of a message, and what follows it. `none` is the end of the data before that of the message.
unfoldable pub receive : Bytes → Option (Bytes × Bytes)
receive input = elim (read_u32 input) [
  | none ↦ none
  | some (len, rest) ↦ if ltb (length rest) len then none else some (take len rest, drop len rest)
]

-- A message that is sent is read again, up to its end and no further, if its length is a `uint32_t`.
pub receive-frame :
    (s rest : Bytes) → length s < 2 ^ 32 → receive (frame s ++ rest) ≡ some (s, rest)
unfolding receive frame
receive-frame s rest h = ground (
  arith,
  ap read_u32 (append_assoc (u32 (length s)) s rest),
  read-u32 (length s) (s ++ rest) h,
  length-append s rest,
  take-append s rest,
  drop-append s rest,
)
