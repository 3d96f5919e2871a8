-- ===== src/Upstream.antt =====
-- What goes to the Kubernetes API server and what comes back (pkg/handlers/k8sproxy/handler.go,
-- pkg/server/api/k8s.go, pkg/server/api/k8s_errors.go).
pub mod Errors
pub mod Proxy
pub mod Headers
pub mod Rejections
pub mod Serving
pub mod Proxying
mod Tests
