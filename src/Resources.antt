-- ===== src/Resources.antt =====
-- internal/controller/runtime_resources.go: the objects that the operator wants to exist for one
-- TrussiumRuntime. The constants, the functions and their proofs are in the children.
pub mod Constants
pub mod Identity
pub mod Scale
pub mod Config
pub mod Deployments
pub mod Objects
pub mod Labels
pub mod Environment
pub mod Bounds
pub mod Checksum
