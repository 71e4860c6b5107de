-- ===== src/Status/Base/Kept.antt =====
-- buildBaseRuntimeStatus leaves the last successful image alone.
use trussium_operator.Prelude.{ℕ, ◌≡◌, Option, none, some, arith, Bool-cases, inl, inr}
use trussium_operator.Prelude.Int.{ℤ}
use trussium_operator.Kube.Condition.{ConditionApi}
use trussium_operator.Kube.Workload.{Deployment}
use trussium_operator.Api.{TrussiumRuntime, TrussiumRuntimeStatus}
use trussium_operator.Status.References.{ReferenceValidationResult}
use trussium_operator.Status.Rollout.{RuntimeObservation}
use trussium_operator.Status.Conditions.{set_runtime_condition, set_availability_condition}
use trussium_operator.Status.Base.{
  invalid_status, missing_status, at_zero_status, towards_zero_status, failed_status, ready_status,
  progressing_status, deployed_status, observed_outcome, build_base_runtime_status,
}

module _ (m : ConditionApi) (now : ℕ) where
  abbrev pub KeepsLast : TrussiumRuntimeStatus → TrussiumRuntimeStatus → Type 0
  KeepsLast s t = t.last_successful_image ≡ s.last_successful_image

  deployed-last :
      (g : ℤ) (d : Deployment) (desired : ℤ) (s : TrussiumRuntimeStatus)
      → KeepsLast s (deployed_status m now g d desired s)
  unfolding deployed_status at_zero_status towards_zero_status failed_status ready_status
      progressing_status set_runtime_condition set_availability_condition
  deployed-last g d desired s = ground arith

  observed-last :
      (r : TrussiumRuntime) (d : Option Deployment) (s : TrussiumRuntimeStatus)
      → KeepsLast s (observed_outcome m now r d s)
  unfolding missing_status set_runtime_condition set_availability_condition
  observed-last r none s = ground arith
  observed-last r (some d) s = deployed-last r.meta.generation d _ s

  pub build_base-last :
      (r : TrussiumRuntime) (o : RuntimeObservation) (v : ReferenceValidationResult)
      → KeepsLast r.status (build_base_runtime_status m now r o v)
  unfolding build_base_runtime_status invalid_status set_runtime_condition
      set_availability_condition
  build_base-last r o v = elim (Bool-cases v.valid) [
    | inl e ↦ rw e (observed-last r o.deployment _)
    | inr e ↦ rw e (ground arith)
  ]
