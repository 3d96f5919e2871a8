-- ===== src/Traceflow/Laws.antt =====
-- What is proved of traceflow requests.
pub mod Expiry
pub mod Polling
