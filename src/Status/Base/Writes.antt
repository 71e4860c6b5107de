-- ===== src/Status/Base/Writes.antt =====
-- buildBaseRuntimeStatus as a list of condition writes that depends on the specification, the
-- observation and the check of the references, and not on the status before.
use trussium_operator.Prelude.{
  String, ◌<>◌, Bool, true, false, not, ◌&&◌, Option, none, some, List, [], ◌∷◌, if◌then◌else◌,
}
use trussium_operator.Prelude.Int.{ℤ, pos, ◌==ℤ◌, ltb_ℤ}
use trussium_operator.Prelude.Text.{itoa}
use trussium_operator.Kube.Condition.{cond_true, cond_false, Condition}
use trussium_operator.Kube.Workload.{Deployment}
use trussium_operator.Api.{TrussiumRuntime}
use trussium_operator.Resources.Scale.{desired_replicas, desired_replica_count}
use trussium_operator.Status.Constants
use trussium_operator.Status.References.{ReferenceValidationResult}
use trussium_operator.Status.Rollout.{RuntimeObservation, deployment_failure}
use trussium_operator.Status.Base.{available_count, deployment_observed, no_degradation}

abbrev pub says : ℤ → String → Bool → String → String → Condition
says g t b reason message = record {
  type = t;
  status = if b then cond_true else cond_false;
  observed_generation = g;
  last_transition_time = 0;
  reason = reason;
  message = message;
}

module _ (g : ℤ) where
  abbrev pub not_degraded : Condition
  not_degraded =
      says g Constants.condition_type_degraded false Constants.reason_as_expected no_degradation

  -- No replica is wanted; one is available; or none is.
  abbrev pub availability_write : ℤ → ℤ → Condition
  availability_write desired available =
      says g Constants.condition_type_available
        (if desired ==ℤ pos 0 then false else ltb_ℤ (pos 0) available)
        (if desired ==ℤ pos 0
          then Constants.reason_scaled_to_zero
          else if ltb_ℤ (pos 0) available
          then Constants.reason_runtime_available
          else Constants.reason_runtime_unavailable)
        (if desired ==ℤ pos 0
          then "No runtime replicas are requested."
          else if ltb_ℤ (pos 0) available
          then itoa available <> " runtime replica(s) are available."
          else "No runtime replicas are currently available.")

  abbrev pub invalid_writes : ReferenceValidationResult → ℤ → ℤ → List Condition
  invalid_writes v desired available =
      says g Constants.condition_type_configuration_valid false v.reason v.message
      ∷ says g Constants.condition_type_progressing false Constants.reason_configuration_invalid
          "Runtime reconciliation is blocked by invalid configuration references."
      ∷ availability_write desired available
      ∷ says g Constants.condition_type_ready false Constants.reason_configuration_invalid
          "The runtime is not ready because configuration references are invalid."
      ∷ says g Constants.condition_type_degraded true Constants.reason_configuration_invalid
          v.message
      ∷ []

  abbrev pub missing_writes : ℤ → ℤ → List Condition
  missing_writes desired available =
      says g Constants.condition_type_progressing true Constants.reason_deployment_progressing
        "The runtime Deployment is being created."
      ∷ availability_write desired available
      ∷ says g Constants.condition_type_ready false Constants.reason_runtime_not_ready
          "The runtime Deployment is not yet available."
      ∷ not_degraded
      ∷ []

  abbrev pub at_zero_writes : List Condition
  at_zero_writes =
      says g Constants.condition_type_progressing false Constants.reason_scaled_to_zero
        "The runtime has reached the requested scaled-to-zero state."
      ∷ says g Constants.condition_type_available false Constants.reason_scaled_to_zero
          "No runtime replicas are requested."
      ∷ says g Constants.condition_type_ready true Constants.reason_scaled_to_zero
          "The runtime has reached the requested scaled-to-zero state."
      ∷ not_degraded
      ∷ []

  abbrev pub towards_zero_writes : List Condition
  towards_zero_writes =
      says g Constants.condition_type_progressing true
        Constants.reason_deployment_generation_pending
        "The Deployment is converging toward the scaled-to-zero state."
      ∷ says g Constants.condition_type_available false Constants.reason_runtime_unavailable
          "The runtime is not currently available."
      ∷ says g Constants.condition_type_ready false Constants.reason_runtime_not_ready
          "The runtime has not yet reached the scaled-to-zero state."
      ∷ not_degraded
      ∷ []

  abbrev pub failed_writes : String → String → ℤ → ℤ → List Condition
  failed_writes reason message desired available =
      says g Constants.condition_type_progressing false Constants.reason_deployment_failed message
      ∷ availability_write desired available
      ∷ says g Constants.condition_type_ready false Constants.reason_deployment_failed message
      ∷ says g Constants.condition_type_degraded true reason message
      ∷ []

  abbrev pub ready_writes : ℤ → List Condition
  ready_writes available =
      says g Constants.condition_type_progressing false Constants.reason_reconciliation_complete
        "The runtime Deployment has reached the desired state."
      ∷ says g Constants.condition_type_available true Constants.reason_runtime_available
          (itoa available <> " runtime replica(s) are available.")
      ∷ says g Constants.condition_type_ready true Constants.reason_runtime_ready
          "All requested runtime replicas are ready and available."
      ∷ not_degraded
      ∷ []

  abbrev pub progressing_writes : Bool → ℤ → ℤ → ℤ → List Condition
  progressing_writes observed desired ready available =
      says g Constants.condition_type_progressing true
        (if observed
          then Constants.reason_deployment_progressing
          else Constants.reason_deployment_generation_pending)
        (if observed
          then "The runtime is progressing toward " <> itoa desired <> " ready replica(s)."
          else "The Deployment controller has not yet observed the current Deployment generation.")
      ∷ availability_write desired available
      ∷ says g Constants.condition_type_ready false Constants.reason_runtime_not_ready
          (itoa ready <> " of " <> itoa desired <> " requested runtime replica(s) are ready.")
      ∷ not_degraded
      ∷ []

-- The writes behind the test for a nil Deployment.
abbrev pub deployed_writes : ℤ → Deployment → ℤ → ℤ → ℤ → List Condition
deployed_writes g d desired ready available =
    if desired ==ℤ pos 0
    then (if deployment_observed d && ready ==ℤ pos 0 && available ==ℤ pos 0
        then at_zero_writes g
        else towards_zero_writes g)
    else elim (deployment_failure d) [
      | some (reason, message) ↦ failed_writes g reason message desired available
      | none ↦
          if deployment_observed d && ready ==ℤ desired && available ==ℤ desired
          then ready_writes g available
          else progressing_writes g (deployment_observed d) desired ready available
    ]

abbrev pub observed_writes : TrussiumRuntime → Option Deployment → List Condition
observed_writes r none = missing_writes r.meta.generation (desired_replica_count r none) (pos 0)
observed_writes r (some d) =
    deployed_writes r.meta.generation d (desired_replica_count r (some d)) d.status.ready_replicas
      d.status.available_replicas

-- All conditions that buildBaseRuntimeStatus writes, in its order.
unfoldable pub base_writes :
    TrussiumRuntime → RuntimeObservation → ReferenceValidationResult → List Condition
base_writes r o v =
    if not v.valid
    then invalid_writes r.meta.generation v (desired_replicas r) (available_count o.deployment)
    else says r.meta.generation Constants.condition_type_configuration_valid true
        Constants.reason_references_resolved "All referenced Secrets are available."
      ∷ observed_writes r o.deployment
