-- ===== src/Revision.antt =====
-- internal/revision: signed revision manifests, what they may contain, and how they follow one another.
pub mod Types
pub mod Ids
pub mod Transition
pub mod Jvm
pub mod Setting
pub mod Validate
pub mod Chain
pub mod Unicode
pub mod Rollback
mod Tests
