-- ===== src/Sharing.antt =====
-- Share links: who may open a recording, and under which name (crates/sharing).
pub mod Slugs
pub mod Visibility
pub mod Links
