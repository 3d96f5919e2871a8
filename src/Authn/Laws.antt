-- ===== src/Authn/Laws.antt =====
-- What the authenticator guarantees.
pub mod Gate
pub mod Redirects
pub mod Tokens
pub mod Resolving
pub mod Streams
