-- ===== src/AntreaSvc.antt =====
-- The client of the Antrea Service (pkg/handlers/antreasvc, pkg/k8s/factory.go,
-- pkg/server/api/featuregates.go).
pub mod Factory
pub mod Provider
pub mod Requests
pub mod FeatureGates
mod Keys
mod Updates
pub mod Rotation
pub mod Answering
pub mod Tests
