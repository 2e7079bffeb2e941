-- ===== src/Platform.antt =====
-- What every service stands on (crates/platform).
pub mod Jobs
pub mod Limits
