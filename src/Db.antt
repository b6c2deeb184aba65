-- ===== src/Db.antt =====
-- The database.
pub mod Table
pub mod Rows
pub mod Keys
pub mod Tx
pub mod Users
pub mod Library
pub mod Milestones
pub mod Wrote
pub mod Queue
pub mod Lists
