-- ===== src/Flows.antt =====
-- The stream of flows (pkg/handlers/flowstream).
pub mod Types
pub mod Protocol
pub mod Conversion
pub mod Filter
pub mod Subscriber
pub mod Stream
pub mod Laws
mod Tests
