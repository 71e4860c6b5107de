-- ===== src/Reconcile.antt =====
-- internal/controller/trussiumruntime_controller.go and the parts of runtime_status.go that call the
-- API: one reconciliation, step by step.
pub mod Platform
pub mod Monad
pub mod Load
pub mod Mutate
pub mod Resources
pub mod Cluster
pub mod Update
pub mod Pass
pub mod Wiring
pub mod Secrets
