-- ===== src/Api.antt =====
-- The HTTP API's handlers (bin/api).
pub mod Watch
