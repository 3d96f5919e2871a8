-- ===== src/Access.antt =====
-- What a user may see (pkg/handlers/access/handler.go, pkg/server/api/access.go).
pub mod Resolver
pub mod Summary
pub mod Namespaces
pub mod Probe
pub mod Honesty
mod Tests
