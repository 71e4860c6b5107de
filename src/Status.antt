-- ===== src/Status.antt =====
-- internal/controller/runtime_status.go: what the operator reports of one TrussiumRuntime. The
-- conditions are kept by k8s.io/apimachinery's `meta` package, a parameter with laws.
pub mod Constants
pub mod References
pub mod Rollout
pub mod Conditions
pub mod Base
pub mod Upgrade
pub mod Build
