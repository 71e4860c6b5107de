-- ===== src/Status/Build.antt =====
-- buildRuntimeStatus and buildReconciliationFailureStatus of
-- internal/controller/runtime_status.go.
pub mod Failure
pub mod Meaning
pub mod History
pub mod Written
pub mod Refinement
pub mod Settled
use trussium_operator.Prelude.{ℕ, ◌<>◌}
use trussium_operator.Kube.Condition.{cond_true, cond_false, ConditionApi}
use trussium_operator.Kube.Errors.{Error, error_text}
use trussium_operator.Api.{TrussiumRuntime, TrussiumRuntimeStatus}
use trussium_operator.Status.Constants.{
  condition_type_progressing, condition_type_ready, condition_type_degraded,
  reason_reconciliation_failed,
}
use trussium_operator.Status.References.{ReferenceValidationResult, valid_reference_validation}
use trussium_operator.Status.Rollout.{RuntimeObservation}
use trussium_operator.Status.Conditions.{set_runtime_condition}
use trussium_operator.Status.Base.{build_base_runtime_status}
use trussium_operator.Status.Upgrade.{apply_upgrade_status}

module _ (m : ConditionApi) (now : ℕ) where
  unfoldable pub build_runtime_status :
      TrussiumRuntime → RuntimeObservation → ReferenceValidationResult → TrussiumRuntimeStatus
  build_runtime_status r o v =
      apply_upgrade_status m now r o.deployment (build_base_runtime_status m now r o v)

  unfoldable pub build_reconciliation_failure_status :
      TrussiumRuntime → RuntimeObservation → Error → TrussiumRuntimeStatus
  build_reconciliation_failure_status r o e =
      let g = r.meta.generation in
      let message = "Runtime reconciliation failed: " <> error_text e in
      let s0 = build_runtime_status r o valid_reference_validation in
      let s1 =
        set_runtime_condition m now s0 g condition_type_progressing cond_false
          reason_reconciliation_failed message in
      let s2 =
        set_runtime_condition m now s1 g condition_type_ready cond_false
          reason_reconciliation_failed message in
      set_runtime_condition m now s2 g condition_type_degraded cond_true
        reason_reconciliation_failed message
