-- ===== src/Revision/Jvm.antt =====
-- internal/revision/jvm_options.go: the launcher JVM parameters that a profile distributes.
pub mod Argument
pub mod Template
pub mod Options
pub mod Collisions
pub mod Effective
