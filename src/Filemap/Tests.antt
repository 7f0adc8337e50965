-- ===== src/Filemap/Tests.antt =====
-- Runs of the model of filemap.c on small inputs, and the theorems at concrete inputs.
mod Trees
mod Storage
mod Session
