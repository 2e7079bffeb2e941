-- ===== src/Ingest.antt =====
-- The ingest crate: chunked upload of takes (crates/ingest).
pub mod Digest
pub mod Chunks
pub mod Tables
pub mod Walk
pub mod Service
pub mod Finalizing
pub mod Sweeping
pub mod Scenario
