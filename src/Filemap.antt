-- ===== src/Filemap.antt =====
-- base/src/pextlib1.0/filemap.c: the map from file paths to port names, kept as a tree of directories.
pub mod Types
pub mod Path
pub mod Tree
pub mod Keys
pub mod Sorted
pub mod Locate
pub mod Get
pub mod Set
pub mod Delete
pub mod Save
pub mod Load
pub mod Fields
pub mod RoundTrip
pub mod Writers
pub mod Database
pub mod Termination
pub mod Listing
pub mod Object
pub mod Commands
pub mod Persistence
mod Samples
mod Tests
