-- ===== src/Status/Upgrade/Steps.antt =====
-- Each branch of applyUpgradeStatus: what it makes of the last successful image and the conditions.
use trussium_operator.Prelude.{
  ℕ, ◌≡◌, refl, String, Bool, false, ◌&&◌, Option, none, some, ◌==◌, arith, eq_iff, Bool-cases,
  Option-cases, inl, inr, if◌then◌else◌,
}
use trussium_operator.Prelude.Int.{ℤ}
use trussium_operator.Kube.Condition.{cond_true, cond_false, ConditionApi, IsConditionApi}
use trussium_operator.Api.{TrussiumRuntimeStatus}
use trussium_operator.Status.Constants.{
  condition_type_upgrading, reason_no_upgrade, reason_upgrade_in_progress, reason_upgrade_complete,
  reason_upgrade_failed,
}
use trussium_operator.Status.Rollout.{
  DeploymentRolloutState, rollout_progressing, rollout_complete, rollout_failed,
}
use trussium_operator.Status.Conditions.{runtime_condition, set_runtime_condition}
use trussium_operator.Status.Conditions.Lookup.{Verdict, verdict, Ruling, ruling, read, read-set}
use trussium_operator.Status.Upgrade.{
  is_complete, first_rollout_status, same_image_status, upgrade_step_status, upgrade_status,
}

-- The Deployment runs the desired image, and its rollout is complete.
abbrev pub is_rolled_out : DeploymentRolloutState → String → String → Bool
is_rolled_out state current desired = is_complete state && current == desired

-- What the Upgrading condition says of the move from one image to another.
abbrev pub upgrade_ruling : DeploymentRolloutState → String → String → ℤ → Ruling
upgrade_ruling rollout_failed current desired g = record {
  status = cond_false;
  reason = reason_upgrade_failed;
  generation = g;
}
upgrade_ruling state current desired g =
    if is_rolled_out state current desired
    then record { status = cond_false; reason = reason_upgrade_complete; generation = g }
    else record { status = cond_true; reason = reason_upgrade_in_progress; generation = g }

abbrev no_upgrade : ℤ → Verdict
no_upgrade g = record {
  status = cond_false;
  reason = reason_no_upgrade;
  message = "No runtime image upgrade is in progress.";
  generation = g;
}

abbrev or_verdict : Option Verdict → Verdict → Verdict
or_verdict none w = w
or_verdict (some v) w = v

module _ (m : ConditionApi) (now : ℕ) (g : ℤ) where
  pub upgrade_status-last :
      (state : DeploymentRolloutState) (current desired : String) (s : TrussiumRuntimeStatus)
      → (upgrade_status m now g state current desired s).last_successful_image
        ≡ (if is_rolled_out state current desired then desired else s.last_successful_image)
  unfolding upgrade_status first_rollout_status same_image_status upgrade_step_status
      set_runtime_condition
  upgrade_status-last rollout_progressing current desired s =
      ground (arith, eq_iff desired s.last_successful_image)
  upgrade_status-last rollout_complete current desired s =
      ground (arith, eq_iff desired s.last_successful_image)
  upgrade_status-last rollout_failed current desired s =
      ground (arith, eq_iff desired s.last_successful_image)

module _ {m : ConditionApi} (laws : IsConditionApi m) (now : ℕ) (g : ℤ) where
  pub read-first_rollout :
      (state : DeploymentRolloutState) (current desired : String) (s : TrussiumRuntimeStatus)
      (u : String)
      → read m (first_rollout_status m now g state current desired s) u
        ≡ (if condition_type_upgrading == u then some (no_upgrade g) else read m s u)
  unfolding first_rollout_status
  read-first_rollout state current desired s u =
      rw (read-set laws now) (elim (Bool-cases (is_rolled_out state current desired)) [
        | inl e ↦ rw e (unfold read in refl)
        | inr e ↦ rw e
      ])

  pub read-same_image :
      (s : TrussiumRuntimeStatus) (u : String)
      → read m (same_image_status m now g s) u ≡ (
          if condition_type_upgrading == u
          then some (or_verdict (read m s condition_type_upgrading) (no_upgrade g))
          else read m s u)
  unfolding same_image_status
  read-same_image s u = elim (Option-cases (runtime_condition m s condition_type_upgrading)) [
    | inl e ↦
        let h : read m s condition_type_upgrading ≡ none = unfold read in rw e in
        rw e (simp (read-set laws now, h))
    | inr (c, e) ↦
        let h : read m s condition_type_upgrading ≡ verdict (some c) = unfold read in rw e in
        rw e (ground (arith, eq_iff condition_type_upgrading u))
  ]

  pub ruling-upgrade_step :
      (state : DeploymentRolloutState) (current last desired : String) (s : TrussiumRuntimeStatus)
      → ruling (
          read m
            (upgrade_step_status m now g state current last desired s)
            condition_type_upgrading)
        ≡ some (upgrade_ruling state current desired g)
  unfolding upgrade_step_status
  ruling-upgrade_step rollout_progressing current last desired s = simp (read-set laws now)
  ruling-upgrade_step rollout_failed current last desired s = simp (read-set laws now)
  ruling-upgrade_step rollout_complete current last desired s =
      elim (Bool-cases (current == desired)) [
        | inl e ↦ rw e (simp (read-set laws now))
        | inr e ↦ rw e (simp (read-set laws now))
      ]

  read-upgrade_step :
      (state : DeploymentRolloutState) (current last desired u : String) (s : TrussiumRuntimeStatus)
      → (condition_type_upgrading == u) ≡ false
      → read m (upgrade_step_status m now g state current last desired s) u ≡ read m s u
  unfolding upgrade_step_status
  read-upgrade_step rollout_progressing current last desired u s n = simp (read-set laws now, n)
  read-upgrade_step rollout_failed current last desired u s n = simp (read-set laws now, n)
  read-upgrade_step rollout_complete current last desired u s n =
      elim (Bool-cases (current == desired)) [
        | inl e ↦ rw e (simp (read-set laws now, n) (unfold read in refl))
        | inr e ↦ rw e (simp (read-set laws now, n))
      ]

  pub read-upgrade_status :
      (state : DeploymentRolloutState) (current desired u : String) (s : TrussiumRuntimeStatus)
      → (condition_type_upgrading == u) ≡ false
      → read m (upgrade_status m now g state current desired s) u ≡ read m s u
  unfolding upgrade_status
  read-upgrade_status state current desired u s n =
      elim (Bool-cases (s.last_successful_image == "")) [
        | inl e ↦ rw e (rw (read-first_rollout state current desired s u, n))
        | inr e ↦ rw e (elim (Bool-cases (desired == s.last_successful_image)) [
          | inl f ↦ rw f (rw (read-same_image s u, n))
          | inr f ↦ rw f (read-upgrade_step state current s.last_successful_image desired u s n)
        ])
      ]
