-- ===== src/Status/Upgrade/Tracking.antt =====
-- What applyUpgradeStatus records: the last successful image, the Upgrading condition, and nothing
-- else.
use trussium_operator.Prelude.{
  ℕ, ◌≡◌, ◌∙◌, ◌≢◌, String, false, Option, some, ◌==◌, arith, eq_iff, Bool-cases, eq_false, inl,
  inr, if◌then◌else◌,
}
use trussium_operator.Kube.Condition.{cond_false, ConditionApi, IsConditionApi}
use trussium_operator.Kube.Workload.{Deployment}
use trussium_operator.Api.{TrussiumRuntime, TrussiumRuntimeStatus}
use trussium_operator.Resources.Identity.{runtime_image}
use trussium_operator.Status.Constants.{condition_type_upgrading, reason_no_upgrade}
use trussium_operator.Status.Rollout.{
  rollout_progressing, rollout_complete, rollout_failed, observe_deployment_rollout,
  deployment_current_image,
}
use trussium_operator.Status.Conditions.{set_runtime_condition}
use trussium_operator.Status.Conditions.Lookup.{Verdict, ruling, read}
use trussium_operator.Status.Upgrade.{
  first_rollout_status, same_image_status, upgrade_step_status, upgrade_status,
  apply_upgrade_status,
}
use trussium_operator.Status.Upgrade.Steps.{
  is_rolled_out, upgrade_ruling, upgrade_status-last, read-first_rollout, read-same_image,
  ruling-upgrade_step, read-upgrade_status,
}

module _ (m : ConditionApi) (now : ℕ) where
  -- The last successful image moves to the desired one when the Deployment's rollout is complete and
  -- its container runs that image, and is kept in every other case.
  pub apply_upgrade-last :
      (r : TrussiumRuntime) (d : Option Deployment) (s : TrussiumRuntimeStatus)
      → let desired = runtime_image r.spec.image in
        (apply_upgrade_status m now r d s).last_successful_image ≡ (
          if is_rolled_out (observe_deployment_rollout r d) (deployment_current_image d) desired
          then desired
          else s.last_successful_image)
  unfolding apply_upgrade_status
  apply_upgrade-last r d s =
      upgrade_status-last m now r.meta.generation (observe_deployment_rollout r d)
        (deployment_current_image d) (runtime_image r.spec.image)
        (record s { desired_image = runtime_image r.spec.image })

module _ {m : ConditionApi} (laws : IsConditionApi m) (now : ℕ) where
  -- A condition of another type is as it was.
  pub read-apply_upgrade :
      (r : TrussiumRuntime) (d : Option Deployment) (s : TrussiumRuntimeStatus) (u : String)
      → (condition_type_upgrading == u) ≡ false
      → read m (apply_upgrade_status m now r d s) u ≡ read m s u
  unfolding apply_upgrade_status read
  read-apply_upgrade r d s u n =
      read-upgrade_status laws now r.meta.generation (observe_deployment_rollout r d)
        (deployment_current_image d) (runtime_image r.spec.image) u
        (record s { desired_image = runtime_image r.spec.image }) n

  -- While the desired image differs from the last successful one, the Upgrading condition says
  -- NoUpgrade if there was no successful image before; else that the upgrade failed, is complete,
  -- or is in progress, as the rollout is failed, is complete with the desired image running, or
  -- neither. It holds in the last case only, and is stated for the current generation.
  -- Conditions are set and found as the library documents it.
  pub ruling-apply_upgrade :
      (r : TrussiumRuntime) (d : Option Deployment) (s : TrussiumRuntimeStatus)
      → runtime_image r.spec.image ≢ s.last_successful_image
      → ruling (read m (apply_upgrade_status m now r d s) condition_type_upgrading)
        ≡ some (
            if s.last_successful_image == ""
            then record {
              status = cond_false;
              reason = reason_no_upgrade;
              generation = r.meta.generation;
            }
            else upgrade_ruling
                (observe_deployment_rollout r d)
                (deployment_current_image d)
                (runtime_image r.spec.image)
                r.meta.generation)
  unfolding apply_upgrade_status upgrade_status
  ruling-apply_upgrade r d s n = elim (Bool-cases (s.last_successful_image == "")) [
    | inl e ↦ rw e (
        rw (
          read-first_rollout laws now r.meta.generation (observe_deployment_rollout r d)
            (deployment_current_image d) (runtime_image r.spec.image) _ condition_type_upgrading))
    | inr e ↦
        rw (e, eq_false _ _ n)
          (ruling-upgrade_step laws now r.meta.generation (observe_deployment_rollout r d)
            (deployment_current_image d) s.last_successful_image (runtime_image r.spec.image)
            (record s { desired_image = runtime_image r.spec.image }))
  ]

  -- When the desired image is the last successful one, which is not empty, an Upgrading condition that
  -- is there is kept word for word, whatever it says.
  -- Conditions are set and found as the library documents it.
  pub read-apply_upgrade_same :
      (r : TrussiumRuntime) (d : Option Deployment) (s : TrussiumRuntimeStatus) {v : Verdict}
      → runtime_image r.spec.image ≡ s.last_successful_image
      → s.last_successful_image ≢ ""
      → read m s condition_type_upgrading ≡ some v
      → read m (apply_upgrade_status m now r d s) condition_type_upgrading ≡ some v
  unfolding apply_upgrade_status upgrade_status read
  read-apply_upgrade_same r d s same nonempty there =
      rw (eq_false _ _ nonempty, (eq_iff _ _).1 same)
        (read-same_image laws now r.meta.generation
            (record s { desired_image = runtime_image r.spec.image }) condition_type_upgrading
          ∙ rw there)

module _ (m : ConditionApi) (now : ℕ) where
  -- The desired image of the new status is the one of the specification.
  pub apply_upgrade-desired :
      (r : TrussiumRuntime) (d : Option Deployment) (s : TrussiumRuntimeStatus)
      → (apply_upgrade_status m now r d s).desired_image ≡ runtime_image r.spec.image
  unfolding apply_upgrade_status upgrade_status first_rollout_status same_image_status
      upgrade_step_status set_runtime_condition
  apply_upgrade-desired r d s =
      elim (observe_deployment_rollout r d)
        as (λ state.
          (upgrade_status m now r.meta.generation state (deployment_current_image d)
            (runtime_image r.spec.image)
            (record s { desired_image = runtime_image r.spec.image })).desired_image
          ≡ runtime_image r.spec.image) [
            | rollout_progressing ↦ ground arith
            | rollout_complete ↦ ground arith
            | rollout_failed ↦ ground arith
          ]
