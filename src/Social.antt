-- ===== src/Social.antt =====
-- The social handlers: groups, the follow graph, blocks, and the erasure of a profile.
pub mod Rows
pub mod Messages
pub mod Handler
pub mod Queries
pub mod GroupQueries
pub mod Guards
pub mod Groups
pub mod Members
pub mod Graph
pub mod Erase
pub mod Served
pub mod Links
pub mod Roles
pub mod Moves
pub mod Apart
pub mod Approval
pub mod Histories
