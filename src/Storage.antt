-- ===== src/Storage.antt =====
-- The interactive tool of cmd/storage.
pub mod CommandLine
pub mod Menu
pub mod Select
pub mod Files
pub mod Actions
pub mod View
mod Tests
