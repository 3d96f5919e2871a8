-- ===== src/Oidc/Laws.antt =====
-- What login with a provider promises.
pub mod Signing
pub mod Backoff
pub mod Templates
pub mod Evidence
pub mod Callbacks
pub mod Returning
