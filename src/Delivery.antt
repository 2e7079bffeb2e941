-- ===== src/Delivery.antt =====
-- Playback (crates/delivery).
pub mod Cache
pub mod Tokens
pub mod Playlists
pub mod Grants
pub mod Rungs
mod Scenario
