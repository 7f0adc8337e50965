-- ===== src/Cregistry.antt =====
-- The buffers, queries and transactions of base/src/cregistry, without the database.
pub mod Growth
pub mod Query
pub mod Objects
pub mod Appending
pub mod Searching
pub mod Transactions
pub mod Bracketing
mod Tests
