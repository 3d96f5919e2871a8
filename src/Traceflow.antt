-- ===== src/Traceflow.antt =====
-- Traceflow requests (pkg/handlers/traceflow/handler.go, pkg/server/api/traceflow.go).
pub mod Handler
pub mod Clients
pub mod Endpoints
pub mod Laws
mod Tests
