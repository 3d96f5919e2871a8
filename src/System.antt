-- ===== src/System.antt =====
-- The whole server: what its endpoints and its collector do to the session store, in any order
-- (pkg/server, pkg/handlers, pkg/auth/session).
pub mod Lawful
pub mod Entries
pub mod Callbacks
pub mod Histories
pub mod Composed
pub mod Calls
mod Tests
