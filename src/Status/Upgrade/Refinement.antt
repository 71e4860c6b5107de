-- ===== src/Status/Upgrade/Refinement.antt =====
-- applyUpgradeStatus makes the one write that is decided.
use trussium_operator.Prelude.{
  ℕ, ◌≡◌, ap, ◌∙◌, inl, inr, String, true, some, [], ◌∷◌, map, ◌==◌, eq_iff, Bool-cases,
  Option-cases,
}
use trussium_operator.Prelude.Int.{ℤ}
use trussium_operator.Kube.Condition.{Condition, ConditionApi, IsConditionApi, SetsInPlace}
use trussium_operator.Api.{TrussiumRuntimeStatus}
use trussium_operator.Status.Constants.{condition_type_upgrading}
use trussium_operator.Status.Rollout.{
  DeploymentRolloutState, rollout_progressing, rollout_complete, rollout_failed,
}
use trussium_operator.Status.Conditions.{set_runtime_condition}
use trussium_operator.Status.Conditions.Upsert.{find, upsert_found}
use trussium_operator.Status.Conditions.Timeless.{
  bare, bare_option, timeless, written, bare-set, find-bare,
}
use trussium_operator.Status.Upgrade.{
  first_rollout_status, same_image_status, upgrade_step_status, upgrade_status,
}
use trussium_operator.Status.Upgrade.Steps.{is_rolled_out}
use trussium_operator.Status.Upgrade.Writes.{
  no_upgrade_write, step_write, kept_write, upgrade_write, next_last, type-find,
}

module _ {m : ConditionApi} (laws : IsConditionApi m) (inplace : SetsInPlace m) (now : ℕ)
    (g : ℤ) where
  abbrev told : Condition → String → TrussiumRuntimeStatus → TrussiumRuntimeStatus
  told w last s = written (w ∷ []) (record (timeless s) { last_successful_image = last })

  timeless-first :
      (state : DeploymentRolloutState) (current desired : String) (s : TrussiumRuntimeStatus)
      → timeless (first_rollout_status m now g state current desired s)
        ≡ told (no_upgrade_write g) (next_last state current desired s.last_successful_image) s
  unfolding first_rollout_status set_runtime_condition
  timeless-first state current desired s = elim (Bool-cases (is_rolled_out state current desired)) [
    | inl e ↦ rw (e, bare-set laws inplace now)
    | inr e ↦ rw (e, bare-set laws inplace now)
  ]

  timeless-same :
      (s : TrussiumRuntimeStatus)
      → timeless (same_image_status m now g s)
        ≡ told
            (kept_write g (find (map bare s.conditions) condition_type_upgrading))
            s.last_successful_image
            s
  unfolding same_image_status set_runtime_condition
  timeless-same s =
      let h = find-bare laws inplace s.conditions condition_type_upgrading in
      elim (Option-cases (m.find_status_condition s.conditions condition_type_upgrading)) [
        | inl e ↦ rw (h, e, bare-set laws inplace now)
        | inr (c, e) ↦
            let f : find (map bare s.conditions) condition_type_upgrading ≡ some (bare c) =
              h ∙ ap bare_option e in
            let k : find (map bare s.conditions) (bare c).type ≡ some (bare c) =
              ap (find (map bare s.conditions)) (type-find (map bare s.conditions) _ (bare c) f)
              ∙ f in
            rw (f, e) (rw (upsert_found (bare c) (map bare s.conditions) k))
      ]

  timeless-step :
      (state : DeploymentRolloutState) (current desired : String) (s : TrussiumRuntimeStatus)
      → timeless (upgrade_step_status m now g state current s.last_successful_image desired s)
        ≡ told
            (step_write g state current s.last_successful_image desired)
            (next_last state current desired s.last_successful_image)
            s
  unfolding upgrade_step_status set_runtime_condition
  timeless-step rollout_progressing current desired s = rw (bare-set laws inplace now)
  timeless-step rollout_failed current desired s = rw (bare-set laws inplace now)
  timeless-step rollout_complete current desired s = elim (Bool-cases (current == desired)) [
    | inl e ↦ rw (e, bare-set laws inplace now)
    | inr e ↦ rw (e, bare-set laws inplace now)
  ]

  last_same :
      (state : DeploymentRolloutState) (current desired last : String)
      → (desired == last) ≡ true
      → next_last state current desired last ≡ last
  last_same state current desired last e = elim (Bool-cases (is_rolled_out state current desired)) [
    | inl f ↦ rw f ((eq_iff desired last).0 e)
    | inr f ↦ rw f
  ]

  -- applyUpgradeStatus makes the one write, and moves the last successful image.
  pub timeless-upgrade :
      (state : DeploymentRolloutState) (current desired : String) (s : TrussiumRuntimeStatus)
      → timeless (upgrade_status m now g state current desired s)
        ≡ written
            (upgrade_write g state current desired s.last_successful_image
                (find (map bare s.conditions) condition_type_upgrading)
              ∷ [])
            (record (timeless s) {
              last_successful_image = next_last state current desired s.last_successful_image;
            })
  unfolding upgrade_status
  timeless-upgrade state current desired s = elim (Bool-cases (s.last_successful_image == "")) [
    | inl e ↦ rw e (timeless-first state current desired s)
    | inr e ↦ rw e (elim (Bool-cases (desired == s.last_successful_image)) [
      | inl f ↦ rw (f, last_same state current desired s.last_successful_image f) (timeless-same s)
      | inr f ↦ rw f (timeless-step state current desired s)
    ])
  ]
