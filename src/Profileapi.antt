-- ===== src/Profileapi.antt =====
-- internal/profileapi: the operations of the API on signed revisions and channels, over the tables of
-- the store and the rules of internal/revision.
pub mod Errors
pub mod Lookup
pub mod Parents
pub mod Publish
pub mod Channels
pub mod Genuine
pub mod Follow
mod Tests
