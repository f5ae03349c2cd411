-- ===== src/Adminauth.antt =====
-- internal/adminauth/adminauth.go: the administrator's password, sessions and request guards, and
-- the routes of cmd/bootoptim-distribution/main.go that they stand before.
pub mod Password
pub mod Types
pub mod Sessions
pub mod Login
pub mod Routes
pub mod Guards
pub mod Holds
pub mod Steps
pub mod Origin
pub mod Bounds
mod Tests
