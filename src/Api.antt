-- ===== src/Api.antt =====
-- The routes of the API (pkg/server/api, pkg/server/server.go) and the authentication in front of
-- them (pkg/server/authn/authn.go: Middleware).
pub mod Routes
pub mod Protection
mod Tests
