-- ===== src/Status/Upgrade/Writes.antt =====
-- What applyUpgradeStatus decides: one write of the Upgrading condition, and the last successful
-- image.
use trussium_operator.Prelude.{
  ◌≡◌, ◌≢◌, refl, inl, inr, String, ◌<>◌, true, false, Option, none, some, List, [], ◌∷◌, ◌==◌,
  arith, eq_iff, eq_refl, Bool-cases, Option-cases, if◌then◌else◌,
}
use trussium_operator.Prelude.Int.{ℤ}
use trussium_operator.Kube.Condition.{Condition}
use trussium_operator.Status.Constants.{
  condition_type_upgrading, reason_no_upgrade, reason_upgrade_in_progress, reason_upgrade_complete,
  reason_upgrade_failed,
}
use trussium_operator.Status.Rollout.{
  DeploymentRolloutState, rollout_progressing, rollout_complete, rollout_failed,
}
use trussium_operator.Status.Conditions.Upsert.{find}
use trussium_operator.Status.Base.Writes.{says}
use trussium_operator.Status.Upgrade.Steps.{is_rolled_out}

module _ (g : ℤ) where
  abbrev pub no_upgrade_write : Condition
  no_upgrade_write =
      says g condition_type_upgrading false reason_no_upgrade
        "No runtime image upgrade is in progress."

  abbrev pub step_write : DeploymentRolloutState → String → String → String → Condition
  step_write rollout_failed current last desired =
      says g condition_type_upgrading false reason_upgrade_failed
        ("Runtime image upgrade from " <> last <> " to " <> desired <> " failed.")
  step_write rollout_complete current last desired =
      if current == desired
      then says g condition_type_upgrading false reason_upgrade_complete
          ("Runtime image upgrade from " <> last <> " to " <> desired <> " completed.")
      else says g condition_type_upgrading true reason_upgrade_in_progress
          ("Runtime image is transitioning from " <> last <> " to " <> desired <> ".")
  step_write rollout_progressing current last desired =
      says g condition_type_upgrading true reason_upgrade_in_progress
        ("Runtime image is upgrading from " <> last <> " to " <> desired <> ".")

  abbrev pub kept_write : Option Condition → Condition
  kept_write none = no_upgrade_write
  kept_write (some c) = c

  -- The Upgrading condition afterwards. The last argument is the one before.
  abbrev pub upgrade_write :
      DeploymentRolloutState → String → String → String → Option Condition → Condition
  upgrade_write state current desired last before =
      if last == ""
      then no_upgrade_write
      else if desired == last
      then kept_write before
      else step_write state current last desired

abbrev pub next_last : DeploymentRolloutState → String → String → String → String
next_last state current desired last = if is_rolled_out state current desired then desired else last

pub type-find : (cs : List Condition) (t : String) (c : Condition) → find cs t ≡ some c → c.type ≡ t
type-find [] t c h = cc
type-find (d ∷ cs) t c h = ground (arith, eq_iff d.type t, type-find cs t c)

type-step :
    (g : ℤ) (state : DeploymentRolloutState) (current last desired : String)
    → (step_write g state current last desired).type ≡ condition_type_upgrading
type-step g rollout_failed current last desired = refl
type-step g rollout_complete current last desired = ground arith
type-step g rollout_progressing current last desired = refl

type-kept :
    (g : ℤ) (cs : List Condition)
    → (kept_write g (find cs condition_type_upgrading)).type ≡ condition_type_upgrading
type-kept g cs = elim (Option-cases (find cs condition_type_upgrading)) [
  | inl e ↦ rw e
  | inr (c, e) ↦ rw e (type-find cs condition_type_upgrading c e)
]

pub type-upgrade_write :
    (g : ℤ) (state : DeploymentRolloutState) (current desired last : String) (cs : List Condition)
    → (upgrade_write g state current desired last (find cs condition_type_upgrading)).type
      ≡ condition_type_upgrading
type-upgrade_write g state current desired last cs = elim (Bool-cases (last == "")) [
  | inl e ↦ rw e
  | inr e ↦ rw e (elim (Bool-cases (desired == last)) [
    | inl f ↦ rw f (type-kept g cs)
    | inr f ↦ rw f (type-step g state current last desired)
  ])
]

-- Deciding again, with what was decided before, decides the same.
pub upgrade_write_again :
    (g : ℤ) (state : DeploymentRolloutState) (current desired last : String)
    (before : Option Condition)
    → desired ≢ ""
    → let w = upgrade_write g state current desired last before in
      upgrade_write g state current desired (next_last state current desired last) (some w) ≡ w
upgrade_write_again g state current desired last before named =
    ground (arith, eq_iff last "", eq_iff desired "", eq_iff desired last, eq_refl desired)
