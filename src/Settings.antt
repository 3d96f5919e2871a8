-- ===== src/Settings.antt =====
-- The configuration of the server (pkg/config/server/config.go), and what is made of it.
pub mod Types
pub mod Validation
pub mod Derived
pub mod Soundness
pub mod Serving
mod Tests
