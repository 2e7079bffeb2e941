-- ===== src/Catalog.antt =====
-- The catalog crate: recordings, their lifecycle, titles and chapters (crates/catalog).
pub mod Recordings
pub mod Titles
pub mod Manage
