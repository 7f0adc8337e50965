-- ===== src/Filemap/Listing.antt =====
-- `List` of filemap.c against `Get`.
pub mod Spelling
pub mod Front
pub mod Sound
pub mod Complete
