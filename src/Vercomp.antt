-- ===== src/Vercomp.antt =====
-- The comparison of versions: `vercmp` of base/src/pextlib1.0/vercomp.c, and the copy of it in
-- base/src/cregistry/vercomp.c that the registry's VERSION collation calls.
pub mod Segments
pub mod Loop
pub mod Registry
pub mod Termination
pub mod Agreement
pub mod Digits
pub mod Asymmetry
mod Tests
