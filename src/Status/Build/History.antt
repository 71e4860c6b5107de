-- ===== src/Status/Build/History.antt =====
-- The last successful image in the status of one reconciliation.
use trussium_operator.Prelude.{ℕ, ◌≡◌, ◌∙◌, Bool, if◌then◌else◌}
use trussium_operator.Kube.Errors.{Error}
use trussium_operator.Kube.Condition.{ConditionApi}
use trussium_operator.Api.{TrussiumRuntime}
use trussium_operator.Resources.Identity.{runtime_image}
use trussium_operator.Status.References.{ReferenceValidationResult, valid_reference_validation}
use trussium_operator.Status.Rollout.{
  RuntimeObservation, observe_deployment_rollout, deployment_current_image,
}
use trussium_operator.Status.Base.{build_base_runtime_status}
use trussium_operator.Status.Base.Kept.{build_base-last}
use trussium_operator.Status.Upgrade.Steps.{is_rolled_out}
use trussium_operator.Status.Upgrade.Tracking.{apply_upgrade-last}
use trussium_operator.Status.Build.{build_runtime_status, build_reconciliation_failure_status}
use trussium_operator.Status.Conditions.{set_runtime_condition}

-- The observation shows the desired image of `r` rolled out completely.
abbrev pub rolled_out : TrussiumRuntime → RuntimeObservation → Bool
rolled_out r o =
    is_rolled_out (observe_deployment_rollout r o.deployment)
      (deployment_current_image o.deployment) (runtime_image r.spec.image)

module _ (m : ConditionApi) (now : ℕ) where
  -- A status takes the desired image as its last successful one when that image is observed rolled
  -- out completely, also where the references are invalid, and keeps the earlier one otherwise.
  pub build-last :
      (r : TrussiumRuntime) (o : RuntimeObservation) (v : ReferenceValidationResult)
      → (build_runtime_status m now r o v).last_successful_image
        ≡ (if rolled_out r o then runtime_image r.spec.image else r.status.last_successful_image)
  unfolding build_runtime_status
  build-last r o v =
      apply_upgrade-last m now r o.deployment (build_base_runtime_status m now r o v)
      ∙ rw (build_base-last m now r o v)

  -- The status that reports a failed reconciliation records the same image.
  pub build_failure-last :
      (r : TrussiumRuntime) (o : RuntimeObservation) (e : Error)
      → (build_reconciliation_failure_status m now r o e).last_successful_image
        ≡ (if rolled_out r o then runtime_image r.spec.image else r.status.last_successful_image)
  unfolding build_reconciliation_failure_status set_runtime_condition
  build_failure-last r o e = build-last r o valid_reference_validation
