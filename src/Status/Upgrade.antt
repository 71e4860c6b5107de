-- ===== src/Status/Upgrade.antt =====
-- applyUpgradeStatus of internal/controller/runtime_status.go: the record of image upgrades.
pub mod Steps
pub mod Writes
pub mod Refinement
pub mod Tracking
use trussium_operator.Prelude.{
  ℕ, String, ◌<>◌, Bool, true, false, not, ◌&&◌, Option, none, some, ◌==◌, if◌then◌else◌, is_some,
}
use trussium_operator.Prelude.Int.{ℤ}
use trussium_operator.Kube.Condition.{cond_true, cond_false, ConditionApi}
use trussium_operator.Kube.Workload.{Deployment}
use trussium_operator.Api.{TrussiumRuntime, TrussiumRuntimeStatus}
use trussium_operator.Resources.Identity.{runtime_image}
use trussium_operator.Status.Constants.{
  condition_type_upgrading, reason_no_upgrade, reason_upgrade_in_progress, reason_upgrade_complete,
  reason_upgrade_failed,
}
use trussium_operator.Status.Rollout.{
  DeploymentRolloutState, rollout_progressing, rollout_complete, rollout_failed,
  observe_deployment_rollout, deployment_current_image,
}
use trussium_operator.Status.Conditions.{set_runtime_condition, runtime_condition}

abbrev pub is_complete : DeploymentRolloutState → Bool
is_complete rollout_complete = true
is_complete _ = false

module _ (m : ConditionApi) (now : ℕ) (g : ℤ) where
  abbrev put_upgrading : Bool → String → String → TrussiumRuntimeStatus → TrussiumRuntimeStatus
  put_upgrading holds reason message s =
      set_runtime_condition m now s g condition_type_upgrading
        (if holds then cond_true else cond_false) reason message

  abbrev put_no_upgrade : TrussiumRuntimeStatus → TrussiumRuntimeStatus
  put_no_upgrade = put_upgrading false reason_no_upgrade "No runtime image upgrade is in progress."

  -- No image has been rolled out successfully before.
  unfoldable pub first_rollout_status :
      DeploymentRolloutState → String → String → TrussiumRuntimeStatus → TrussiumRuntimeStatus
  first_rollout_status state current desired s = put_no_upgrade (
      if is_complete state && current == desired
      then record s { last_successful_image = desired }
      else s)

  -- The desired image is the one that was rolled out last.
  unfoldable pub same_image_status : TrussiumRuntimeStatus → TrussiumRuntimeStatus
  same_image_status s =
      if is_some (runtime_condition m s condition_type_upgrading) then s else put_no_upgrade s

  -- The switch over the rollout, from the image `last` to `desired`.
  unfoldable pub upgrade_step_status :
      DeploymentRolloutState
      → String
      → String
      → String
      → TrussiumRuntimeStatus
      → TrussiumRuntimeStatus
  upgrade_step_status rollout_failed current last desired s =
      put_upgrading false reason_upgrade_failed
        ("Runtime image upgrade from " <> last <> " to " <> desired <> " failed.") s
  upgrade_step_status rollout_complete current last desired s =
      if not (current == desired)
      then put_upgrading true reason_upgrade_in_progress
          ("Runtime image is transitioning from " <> last <> " to " <> desired <> ".") s
      else put_upgrading false reason_upgrade_complete
          ("Runtime image upgrade from " <> last <> " to " <> desired <> " completed.")
          (record s { last_successful_image = desired })
  upgrade_step_status rollout_progressing current last desired s =
      put_upgrading true reason_upgrade_in_progress
        ("Runtime image is upgrading from " <> last <> " to " <> desired <> ".") s

  -- The function behind its first two lines, with the observed rollout and the two images.
  unfoldable pub upgrade_status :
      DeploymentRolloutState → String → String → TrussiumRuntimeStatus → TrussiumRuntimeStatus
  upgrade_status state current desired s =
      if s.last_successful_image == ""
      then first_rollout_status state current desired s
      else if desired == s.last_successful_image
      then same_image_status s
      else upgrade_step_status state current s.last_successful_image desired s

module _ (m : ConditionApi) (now : ℕ) where
  unfoldable pub apply_upgrade_status :
      TrussiumRuntime → Option Deployment → TrussiumRuntimeStatus → TrussiumRuntimeStatus
  apply_upgrade_status r d s =
      let desired = runtime_image r.spec.image in
      upgrade_status m now r.meta.generation (observe_deployment_rollout r d)
        (deployment_current_image d) desired (record s { desired_image = desired })
