-- ===== src/Storage.antt =====
-- internal/storage: the tables that keep revisions, and the transactions on them.
pub mod Database
pub mod Sorted
pub mod Publish
pub mod Channel
pub mod History
pub mod Steps
pub mod Rows
pub mod Sound
pub mod TestProfiles
mod Tests
