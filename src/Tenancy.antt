-- ===== src/Tenancy.antt =====
-- Workspaces, their members, and what a member may do (crates/tenancy, crates/kernel).
pub mod Roles
pub mod Members
