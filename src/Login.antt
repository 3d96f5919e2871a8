-- ===== src/Login.antt =====
-- The endpoints that begin and end a session (pkg/server/auth.go).
pub mod Types
pub mod Wording
pub mod Creation
pub mod Review
pub mod Flows
pub mod Ending
pub mod Routes
pub mod Signing
pub mod Laws
pub mod Tests
