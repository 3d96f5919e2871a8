-- ===== src/Startup.antt =====
-- The start of the process (cmd/server/main.go) and the authenticator's constructor
-- (pkg/server/authn/authn.go: New).
pub mod Steps
pub mod Clients
pub mod Tls
pub mod Authenticator
pub mod Run
pub mod Parts
pub mod Backing
pub mod Reasons
mod Stopping
pub mod Outcome
mod Tests
