-- ===== src/Password/Laws.antt =====
-- What the store of the admin password guarantees.
pub mod Updates
pub mod Changes
pub mod Secrets
pub mod Starting
