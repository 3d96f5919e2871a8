-- ===== src/Plugins.antt =====
-- Frontend plugins from ConfigMaps (pkg/plugins, pkg/server/api/plugins.go).
pub mod Registry
pub mod Files
pub mod Soundness
pub mod Listing
pub mod Presence
pub mod Serving
mod Tests
