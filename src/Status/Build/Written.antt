-- ===== src/Status/Build/Written.antt =====
-- buildRuntimeStatus and buildReconciliationFailureStatus as chains of calls of setRuntimeCondition on
-- the conditions that are stored.
use trussium_operator.Prelude.{
  ℕ, refl, inl, inr, String, Bool, Option, none, some, List, ◌==◌, Bool-cases, Option-cases, ◌&&◌,
}
use trussium_operator.Prelude.Int.{ℤ, pos, ◌==ℤ◌, ltb_ℤ}
use trussium_operator.Kube.Condition.{Condition, ConditionApi}
use trussium_operator.Kube.Errors.{Error}
use trussium_operator.Kube.Workload.{Deployment}
use trussium_operator.Api.{TrussiumRuntime, TrussiumRuntimeStatus}
use trussium_operator.Resources.Identity.{runtime_image}
use trussium_operator.Status.References.{ReferenceValidationResult, valid_reference_validation}
use trussium_operator.Status.Rollout.{
  DeploymentRolloutState, rollout_progressing, rollout_complete, rollout_failed, RuntimeObservation,
  deployment_failure,
}
use trussium_operator.Status.Conditions.{
  runtime_condition, set_runtime_condition, set_availability_condition,
}
use trussium_operator.Status.Conditions.Written.{
  Written, start, put, Untimed, NoUpgrade, Written-trans, Written-weaken,
}
use trussium_operator.Status.Base.{
  deployment_observed, invalid_status, missing_status, at_zero_status, towards_zero_status,
  failed_status, ready_status, progressing_status, deployed_status, observed_outcome,
  build_base_runtime_status,
}
use trussium_operator.Status.Upgrade.{
  first_rollout_status, same_image_status, upgrade_step_status, upgrade_status,
  apply_upgrade_status,
}
use trussium_operator.Status.Upgrade.Steps.{is_rolled_out}
use trussium_operator.Status.Build.{build_runtime_status, build_reconciliation_failure_status}

module _ (m : ConditionApi) (now : ℕ) where
  -- A status comes from `cs` by writes of conditions other than Upgrading.
  abbrev pub Plain : List Condition → TrussiumRuntimeStatus → Type 0
  Plain cs s = Written m now NoUpgrade cs s.conditions

  -- Or by writes of any conditions.
  abbrev pub Any : List Condition → TrussiumRuntimeStatus → Type 0
  Any cs s = Written m now Untimed cs s.conditions

  module _ (cs : List Condition) (s : TrussiumRuntimeStatus) (h : Plain cs s) (g : ℤ) where
    availability-Plain : (desired : ℤ) → Plain cs (set_availability_condition m now s g desired)
    unfolding set_availability_condition set_runtime_condition
    availability-Plain desired = elim (Bool-cases (desired ==ℤ pos 0)) [
      | inl e ↦ rw e (put _ (refl, refl) h)
      | inr e ↦ rw e (elim (Bool-cases (ltb_ℤ (pos 0) s.available_replicas)) [
        | inl f ↦ rw f (put _ (refl, refl) h)
        | inr f ↦ rw f (put _ (refl, refl) h)
      ])
    ]

  module _ (cs : List Condition) (g : ℤ) (s : TrussiumRuntimeStatus) (h : Plain cs s) where
    invalid-Plain :
        (v : ReferenceValidationResult) (desired : ℤ)
        → Plain cs (invalid_status m now g v desired s)
    unfolding invalid_status set_runtime_condition
    invalid-Plain v desired =
        put _ (refl, refl)
          (put _ (refl, refl)
            (availability-Plain cs _ (put _ (refl, refl) (put _ (refl, refl) h)) g desired))

    missing-Plain : (desired : ℤ) → Plain cs (missing_status m now g desired s)
    unfolding missing_status set_runtime_condition
    missing-Plain desired =
        put _ (refl, refl)
          (put _ (refl, refl) (availability-Plain cs _ (put _ (refl, refl) h) g desired))

    at_zero-Plain : Plain cs (at_zero_status m now g s)
    unfolding at_zero_status set_runtime_condition
    at_zero-Plain =
        put _ (refl, refl) (put _ (refl, refl) (put _ (refl, refl) (put _ (refl, refl) h)))

    towards_zero-Plain : Plain cs (towards_zero_status m now g s)
    unfolding towards_zero_status set_runtime_condition
    towards_zero-Plain =
        put _ (refl, refl) (put _ (refl, refl) (put _ (refl, refl) (put _ (refl, refl) h)))

    failed-Plain :
        (reason message : String) (desired : ℤ)
        → Plain cs (failed_status m now g reason message desired s)
    unfolding failed_status set_runtime_condition
    failed-Plain reason message desired =
        put _ (refl, refl)
          (put _ (refl, refl) (availability-Plain cs _ (put _ (refl, refl) h) g desired))

    ready-Plain : Plain cs (ready_status m now g s)
    unfolding ready_status set_runtime_condition
    ready-Plain =
        put _ (refl, refl) (put _ (refl, refl) (put _ (refl, refl) (put _ (refl, refl) h)))

    progressing-Plain :
        (seen : Bool) (desired : ℤ) → Plain cs (progressing_status m now g seen desired s)
    unfolding progressing_status set_runtime_condition
    progressing-Plain seen desired =
        put _ (refl, refl)
          (put _ (refl, refl) (availability-Plain cs _ (put _ (refl, refl) h) g desired))

    deployed-Plain : (d : Deployment) (desired : ℤ) → Plain cs (deployed_status m now g d desired s)
    unfolding deployed_status
    deployed-Plain d desired = elim (Bool-cases (desired ==ℤ pos 0)) [
      | inl e ↦
          rw e
            (elim (Bool-cases (
              deployment_observed d
              && s.ready_replicas ==ℤ pos 0
              && s.available_replicas ==ℤ pos 0)) [
                | inl f ↦ rw f at_zero-Plain
                | inr f ↦ rw f towards_zero-Plain
              ])
      | inr e ↦ rw e (elim (Option-cases (deployment_failure d)) [
        | inl n ↦
            rw n
              (elim (Bool-cases (
                deployment_observed d
                && s.ready_replicas ==ℤ desired
                && s.available_replicas ==ℤ desired)) [
                  | inl f ↦ rw f ready-Plain
                  | inr f ↦ rw f (progressing-Plain (deployment_observed d) desired)
                ])
        | inr ((reason, message), f) ↦ rw f (failed-Plain reason message desired)
      ])
    ]

  observed-Plain :
      (cs : List Condition) (r : TrussiumRuntime) (d : Option Deployment)
      (s : TrussiumRuntimeStatus)
      → Plain cs s
      → Plain cs (observed_outcome m now r d s)
  observed-Plain cs r none s h = missing-Plain cs r.meta.generation s h _
  observed-Plain cs r (some d) s h = deployed-Plain cs r.meta.generation s h d _

  pub build_base-Plain :
      (r : TrussiumRuntime) (o : RuntimeObservation) (v : ReferenceValidationResult)
      → Plain r.status.conditions (build_base_runtime_status m now r o v)
  unfolding build_base_runtime_status set_runtime_condition
  build_base-Plain r o v = elim (Bool-cases v.valid) [
    | inl e ↦ rw e (observed-Plain r.status.conditions r o.deployment _ (put _ (refl, refl) start))
    | inr e ↦ rw e (invalid-Plain r.status.conditions r.meta.generation _ start _ _)
  ]

  first_rollout-Any :
      (g : ℤ) (state : DeploymentRolloutState) (current desired : String)
      (s : TrussiumRuntimeStatus)
      → Any s.conditions (first_rollout_status m now g state current desired s)
  unfolding first_rollout_status set_runtime_condition
  first_rollout-Any g state current desired s =
      elim (Bool-cases (is_rolled_out state current desired)) [
        | inl e ↦ rw e (put _ refl start)
        | inr e ↦ rw e (put _ refl start)
      ]

  same_image-Any :
      (g : ℤ) (s : TrussiumRuntimeStatus) → Any s.conditions (same_image_status m now g s)
  unfolding same_image_status set_runtime_condition
  same_image-Any g s = elim (Option-cases (runtime_condition m s "Upgrading")) [
    | inl e ↦ rw e (put _ refl start)
    | inr (c, e) ↦ rw e start
  ]

  upgrade_step-Any :
      (g : ℤ) (state : DeploymentRolloutState) (current last desired : String)
      (s : TrussiumRuntimeStatus)
      → Any s.conditions (upgrade_step_status m now g state current last desired s)
  unfolding upgrade_step_status set_runtime_condition
  upgrade_step-Any g rollout_progressing current last desired s = put _ refl start
  upgrade_step-Any g rollout_failed current last desired s = put _ refl start
  upgrade_step-Any g rollout_complete current last desired s =
      elim (Bool-cases (current == desired)) [
        | inl e ↦ rw e (put _ refl start)
        | inr e ↦ rw e (put _ refl start)
      ]

  apply_upgrade-Any :
      (r : TrussiumRuntime) (d : Option Deployment) (s : TrussiumRuntimeStatus)
      → Any s.conditions (apply_upgrade_status m now r d s)
  unfolding apply_upgrade_status upgrade_status
  apply_upgrade-Any r d s = elim (Bool-cases (s.last_successful_image == "")) [
    | inl e ↦ rw e (first_rollout-Any r.meta.generation _ _ _ _)
    | inr e ↦ rw e (elim (Bool-cases (runtime_image r.spec.image == s.last_successful_image)) [
      | inl f ↦ rw f (same_image-Any r.meta.generation _)
      | inr f ↦ rw f (upgrade_step-Any r.meta.generation _ _ _ _ _)
    ])
  ]

  pub build-Any :
      (r : TrussiumRuntime) (o : RuntimeObservation) (v : ReferenceValidationResult)
      → Any r.status.conditions (build_runtime_status m now r o v)
  unfolding build_runtime_status
  build-Any r o v =
      Written-trans (Written-weaken (λ c h. h.0) (build_base-Plain r o v))
        (apply_upgrade-Any r o.deployment (build_base_runtime_status m now r o v))

  pub build_failure-Any :
      (r : TrussiumRuntime) (o : RuntimeObservation) (e : Error)
      → Any r.status.conditions (build_reconciliation_failure_status m now r o e)
  unfolding build_reconciliation_failure_status set_runtime_condition
  build_failure-Any r o e =
      put _ refl (put _ refl (put _ refl (build-Any r o valid_reference_validation)))
