-- ===== src/Login/Laws.antt =====
-- What the login endpoints promise.
pub mod Creating
pub mod Holding
pub mod Entering
pub mod Admin
pub mod Leaving
pub mod Guarding
pub mod SigningIn
