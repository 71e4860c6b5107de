-- ===== src/Status/Base.antt =====
-- buildBaseRuntimeStatus of internal/controller/runtime_status.go: one function for each of its
-- outcomes, each with the conditions in the order of the source, and the branches between them.
pub mod Outcome
pub mod Phases
pub mod Kept
pub mod Writes
pub mod Refinement
use trussium_operator.Prelude.{
  ℕ, String, ◌<>◌, Bool, true, false, not, ◌&&◌, Option, none, some, if◌then◌else◌,
}
use trussium_operator.Prelude.Int.{ℤ, pos, ◌==ℤ◌, ltb_ℤ}
use trussium_operator.Prelude.Text.{itoa}
use trussium_operator.Kube.Condition.{cond_true, cond_false, ConditionApi}
use trussium_operator.Kube.Workload.{Deployment}
use trussium_operator.Api.{TrussiumRuntime, TrussiumRuntimeStatus}
use trussium_operator.Resources.Identity.{runtime_image}
use trussium_operator.Resources.Scale.{desired_replicas, desired_replica_count}
use trussium_operator.Status.Constants
use trussium_operator.Status.References.{ReferenceValidationResult}
use trussium_operator.Status.Rollout.{
  RuntimeObservation, deployment_failure, deployment_current_image, runtime_service_endpoint,
}
use trussium_operator.Status.Conditions.{
  copy_runtime_status, set_runtime_condition, set_availability_condition,
}

abbrev pub ready_count : Option Deployment → ℤ
ready_count none = pos 0
ready_count (some d) = d.status.ready_replicas

abbrev pub available_count : Option Deployment → ℤ
available_count none = pos 0
available_count (some d) = d.status.available_replicas

-- The fields that are set before any condition.
abbrev pub observed_status : TrussiumRuntime → RuntimeObservation → TrussiumRuntimeStatus
observed_status r o = record (copy_runtime_status r.status) {
  observed_generation = r.meta.generation;
  ready_replicas = ready_count o.deployment;
  available_replicas = available_count o.deployment;
  desired_image = runtime_image r.spec.image;
  current_image = deployment_current_image o.deployment;
  endpoint = runtime_service_endpoint o.service;
}

abbrev pub deployment_observed : Deployment → Bool
deployment_observed d = not (ltb_ℤ d.status.observed_generation d.meta.generation)

abbrev pub no_degradation : String
no_degradation = "No degraded runtime condition has been observed."

module _ (m : ConditionApi) (now : ℕ) where
  module _ (g : ℤ) where
    -- One call of setRuntimeCondition, the status last.
    abbrev pub put : String → Bool → String → String → TrussiumRuntimeStatus → TrussiumRuntimeStatus
    put t holds reason message s =
        set_runtime_condition m now s g t (if holds then cond_true else cond_false) reason message

    abbrev put_availability : ℤ → TrussiumRuntimeStatus → TrussiumRuntimeStatus
    put_availability desired s = set_availability_condition m now s g desired

    abbrev put_not_degraded : TrussiumRuntimeStatus → TrussiumRuntimeStatus
    put_not_degraded =
        put Constants.condition_type_degraded false Constants.reason_as_expected no_degradation

    -- Referenced Secrets are missing or could not be checked.
    unfoldable pub invalid_status :
        ReferenceValidationResult → ℤ → TrussiumRuntimeStatus → TrussiumRuntimeStatus
    invalid_status v desired s0 =
        let s1 = put Constants.condition_type_configuration_valid false v.reason v.message s0 in
        let s2 =
          put Constants.condition_type_progressing false Constants.reason_configuration_invalid
            "Runtime reconciliation is blocked by invalid configuration references." s1 in
        let s3 = put_availability desired s2 in
        let s4 =
          put Constants.condition_type_ready false Constants.reason_configuration_invalid
            "The runtime is not ready because configuration references are invalid." s3 in
        put Constants.condition_type_degraded true Constants.reason_configuration_invalid v.message
          s4

    -- There is no Deployment yet.
    unfoldable pub missing_status : ℤ → TrussiumRuntimeStatus → TrussiumRuntimeStatus
    missing_status desired s0 =
        let s1 =
          put Constants.condition_type_progressing true Constants.reason_deployment_progressing
            "The runtime Deployment is being created." s0 in
        let s2 = put_availability desired s1 in
        let s3 =
          put Constants.condition_type_ready false Constants.reason_runtime_not_ready
            "The runtime Deployment is not yet available." s2 in
        put_not_degraded s3

    -- No replica is wanted, and none is left.
    unfoldable pub at_zero_status : TrussiumRuntimeStatus → TrussiumRuntimeStatus
    at_zero_status s0 =
        let s1 =
          put Constants.condition_type_progressing false Constants.reason_scaled_to_zero
            "The runtime has reached the requested scaled-to-zero state." s0 in
        let s2 =
          put Constants.condition_type_available false Constants.reason_scaled_to_zero
            "No runtime replicas are requested." s1 in
        let s3 =
          put Constants.condition_type_ready true Constants.reason_scaled_to_zero
            "The runtime has reached the requested scaled-to-zero state." s2 in
        put_not_degraded s3

    -- No replica is wanted, and some may be left.
    unfoldable pub towards_zero_status : TrussiumRuntimeStatus → TrussiumRuntimeStatus
    towards_zero_status s0 =
        let s1 =
          put Constants.condition_type_progressing true
            Constants.reason_deployment_generation_pending
            "The Deployment is converging toward the scaled-to-zero state." s0 in
        let s2 =
          put Constants.condition_type_available false Constants.reason_runtime_unavailable
            "The runtime is not currently available." s1 in
        let s3 =
          put Constants.condition_type_ready false Constants.reason_runtime_not_ready
            "The runtime has not yet reached the scaled-to-zero state." s2 in
        put_not_degraded s3

    -- The Deployment reports a failure.
    unfoldable pub failed_status :
        String → String → ℤ → TrussiumRuntimeStatus → TrussiumRuntimeStatus
    failed_status reason message desired s0 =
        let s1 =
          put Constants.condition_type_progressing false Constants.reason_deployment_failed message
            s0 in
        let s2 = put_availability desired s1 in
        let s3 =
          put Constants.condition_type_ready false Constants.reason_deployment_failed message s2 in
        put Constants.condition_type_degraded true reason message s3

    -- All wanted replicas are ready and available.
    unfoldable pub ready_status : TrussiumRuntimeStatus → TrussiumRuntimeStatus
    ready_status s0 =
        let s1 =
          put Constants.condition_type_progressing false Constants.reason_reconciliation_complete
            "The runtime Deployment has reached the desired state." s0 in
        let s2 =
          put Constants.condition_type_available true Constants.reason_runtime_available
            (itoa s1.available_replicas <> " runtime replica(s) are available.") s1 in
        let s3 =
          put Constants.condition_type_ready true Constants.reason_runtime_ready
            "All requested runtime replicas are ready and available." s2 in
        put_not_degraded s3

    abbrev pub progress_reason : Bool → String
    progress_reason observed =
        if observed
        then Constants.reason_deployment_progressing
        else Constants.reason_deployment_generation_pending

    abbrev pub progress_message : Bool → ℤ → String
    progress_message observed desired =
        if observed
        then "The runtime is progressing toward " <> itoa desired <> " ready replica(s)."
        else "The Deployment controller has not yet observed the current Deployment generation."

    -- Replicas are still missing, or the generation is not observed.
    unfoldable pub progressing_status : Bool → ℤ → TrussiumRuntimeStatus → TrussiumRuntimeStatus
    progressing_status observed desired s0 =
        let s1 =
          put Constants.condition_type_progressing true (progress_reason observed)
            (progress_message observed desired) s0 in
        let s2 = put_availability desired s1 in
        let s3 =
          put Constants.condition_type_ready false Constants.reason_runtime_not_ready
            (itoa s2.ready_replicas
              <> " of "
              <> itoa desired
              <> " requested runtime replica(s) are ready.")
            s2 in
        put_not_degraded s3

  -- What follows the test for a nil Deployment, with the desired count.
  unfoldable pub deployed_status :
      ℤ → Deployment → ℤ → TrussiumRuntimeStatus → TrussiumRuntimeStatus
  deployed_status g d desired s =
      if desired ==ℤ pos 0
      then (if deployment_observed d && s.ready_replicas ==ℤ pos 0 && s.available_replicas ==ℤ pos 0
          then at_zero_status g s
          else towards_zero_status g s)
      else elim (deployment_failure d) [
        | some (reason, message) ↦ failed_status g reason message desired s
        | none ↦
            if deployment_observed d
              && s.ready_replicas ==ℤ desired
              && s.available_replicas ==ℤ desired
            then ready_status g s
            else progressing_status g (deployment_observed d) desired s
      ]

  abbrev pub observed_outcome :
      TrussiumRuntime → Option Deployment → TrussiumRuntimeStatus → TrussiumRuntimeStatus
  observed_outcome r none s = missing_status r.meta.generation (desired_replica_count r none) s
  observed_outcome r (some d) s =
      deployed_status r.meta.generation d (desired_replica_count r (some d)) s

  unfoldable pub build_base_runtime_status :
      TrussiumRuntime → RuntimeObservation → ReferenceValidationResult → TrussiumRuntimeStatus
  build_base_runtime_status r o v =
      if not v.valid
      then invalid_status r.meta.generation v (desired_replicas r) (observed_status r o)
      else observed_outcome r o.deployment (
          put r.meta.generation Constants.condition_type_configuration_valid true
            Constants.reason_references_resolved "All referenced Secrets are available."
            (observed_status r o))
