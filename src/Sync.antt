-- ===== src/Sync.antt =====
-- syncsvc: the sync engine.
pub mod Env
pub mod Token
pub mod Convert
pub mod Settings
pub mod Episode
pub mod Podcast
pub mod Bookmark
pub mod Simple
pub mod Milestones
pub mod Collect
pub mod Update
pub mod Invariant
pub mod Realtime
pub mod UpNext
pub mod History
pub mod Served
pub mod Library
