-- ===== src/Lifecycle.antt =====
-- internal/lifecycle: the session that outlives a restart, and the shutdown sequence.
pub mod Session
pub mod Shutdown
