-- ===== src/Flows/Laws.antt =====
-- What the stream of flows promises.
pub mod Receiving
pub mod Streaming
pub mod Ending
