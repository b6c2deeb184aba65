-- ===== src/Tests.antt =====
-- Concrete runs: each module applies the theorems of one part at test data.
mod Data
mod Updates
mod Queues
mod History
mod Laws
mod Library
mod Social
mod Texts
mod Folders
