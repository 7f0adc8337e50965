-- ===== src/Daemondo.antt =====
-- The program that starts, stops and restarts a daemon: base/src/programs/daemondo/main.c.
pub mod Types
pub mod PidFile
pub mod Children
pub mod Control
pub mod Loop
pub mod Preserving
pub mod Ending
pub mod Tracking
pub mod Following
pub mod Ended
pub mod Options
pub mod Requests
pub mod Discovery
mod Tests
