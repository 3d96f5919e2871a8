-- ===== src/Password.antt =====
-- The admin password: pkg/password, and the endpoint that changes it (pkg/server/api/account.go).
pub mod Store
pub mod Secret
pub mod Account
pub mod Laws
pub mod Tests
