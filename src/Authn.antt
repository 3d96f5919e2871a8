-- ===== src/Authn.antt =====
-- pkg/server/authn: who is making a request (authn.go, bearer.go), and the session cookie
-- (pkg/server/utils/cookie/cookie.go).
pub mod Types
pub mod Origin
pub mod Cookies
pub mod Bearer
pub mod Resolve
pub mod Identity
pub mod Laws
pub mod Tests
