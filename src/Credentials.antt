-- ===== src/Credentials.antt =====
-- The credentials that a login brings (pkg/k8s/credentials.go).
pub mod Tokens
pub mod Kubeconfig
pub mod Acceptance
pub mod Tests
