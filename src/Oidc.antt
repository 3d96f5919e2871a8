-- ===== src/Oidc.antt =====
-- Login with an OpenID Connect provider (pkg/server/oauth2.go).
pub mod Template
pub mod Provider
pub mod State
pub mod Refresh
pub mod Endpoints
pub mod Laws
pub mod Tests
