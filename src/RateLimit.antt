-- ===== src/RateLimit.antt =====
-- Rate limits (pkg/server/ratelimit): the format of a rate, the limiters, and by which key a client
-- is counted.
pub mod ClientKey
pub mod Spoofing
pub mod Format
pub mod Limiters
pub mod Numerals
pub mod Isolation
mod Tests
