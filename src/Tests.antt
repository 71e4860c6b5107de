-- ===== src/Tests.antt =====
-- Concrete instances of the parameters, and the theorems at concrete inputs.
mod Conditions
mod Equality
mod Fixtures
mod Server
mod Store
mod StatusRuns
mod UpgradeRuns
mod ReconcileRuns
mod SuccessRuns
mod RestoreRuns
mod AgainRuns
mod EventRuns
mod TurnRuns
mod ManagerRuns
mod ResourceRuns
