-- ===== src/Trace.antt =====
-- Trace mode: the bounds of the sandbox that base/src/pextlib1.0/tracelib.c keeps and sends, and the
-- checks that base/src/darwintracelib1.0 makes in the traced processes.
pub mod Sandbox
pub mod Rules
pub mod Spelling
pub mod Check
pub mod Decision
pub mod Buffer
pub mod Lookup
pub mod Normal
pub mod Absolute
pub mod Slashes
pub mod Iterator
pub mod Total
pub mod Below
pub mod Wire
pub mod Server
pub mod Names
pub mod Protocol
pub mod Session
pub mod Peers
pub mod EventLoop
pub mod Counts
pub mod Balance
pub mod Stop
pub mod Env
pub mod Restoring
pub mod Exec
pub mod Script
mod Tests
