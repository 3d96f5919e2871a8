-- ===== src/Session.antt =====
-- pkg/auth/session: the server-side session store (session.go, store.go).
pub mod Types
pub mod Memory
pub mod Expiry
pub mod Transports
pub mod Store
pub mod Get
pub mod Invariant
pub mod Run
pub mod Laws
pub mod Scenarios
mod Tests
