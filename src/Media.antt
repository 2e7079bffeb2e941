-- ===== src/Media.antt =====
-- The media crate (crates/media): its rules, tables and services.
pub mod Edl
pub mod Manifest
pub mod Waveform
pub mod Sprite
pub mod Storage
pub mod Renditions
pub mod Processing
pub mod Edits
pub mod Derived
pub mod Requests
