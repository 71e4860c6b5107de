-- ===== src/Tests/StatusRuns.antt =====
-- The theorems of the status at concrete runtimes.
use trussium_operator.Prelude.{◌≡◌, refl, ◌↔◌, ◌⊎◌, inr, true, false, some, arith, is_some}
use trussium_operator.Prelude.Int.{pos, ◌==ℤ◌, ltb_ℤ}
use trussium_operator.Kube.Condition.{cond_true}
use trussium_operator.Resources.Scale.{
  desired_replicas, desired_replica_count, initial_deployment_replicas, autoscaling_enabled,
}
use trussium_operator.Status.References.{valid_reference_validation}
use trussium_operator.Status.Rollout.{
  deployment_failure, find_deadline_exceeded, find_replica_failure, observe_deployment_rollout,
  rollout_complete, rollout_failed, deployment_has_rollout_failure,
}
use trussium_operator.Status.Rollout.Completion.{
  IsConverged, observe-complete_iff, observe-failed_iff,
}
use trussium_operator.Status.Base.Outcome.{Reports, row}
use trussium_operator.Status.Build.{build_runtime_status}
use trussium_operator.Status.Build.Meaning.{
  Says, ServesAll, build-Reports, ready_iff, degraded_iff, DeploymentHasFailed,
}
use trussium_operator.Tests.Conditions.{condition_table, condition_table-IsConditionApi}
use trussium_operator.Tests.Fixtures.{
  demo, served, failed_deployment, served_observation, failed_observation,
}

-- The served Deployment meets all that Ready asks for.
demo-served : ServesAll demo served
unfolding desired_replica_count initial_deployment_replicas autoscaling_enabled desired_replicas
    deployment_failure find_deadline_exceeded find_replica_failure
demo-served = record {
  generation_observed = omega arith;
  all_ready = refl;
  all_available = refl;
  none_failed = inr refl;
}

ready_iff_example :
    Says condition_table-IsConditionApi 100 demo served_observation valid_reference_validation
      "Ready" cond_true
    ↔ ((true ≡ true) × ServesAll demo served)
ready_iff_example =
    ready_iff condition_table-IsConditionApi 100 demo served_observation valid_reference_validation

demo_ready :
    Says condition_table-IsConditionApi 100 demo served_observation valid_reference_validation
      "Ready" cond_true
demo_ready =
    (ready_iff condition_table-IsConditionApi 100 demo served_observation
        valid_reference_validation).1
      (refl, demo-served)

degraded_iff_example :
    Says condition_table-IsConditionApi 100 demo failed_observation valid_reference_validation
      "Degraded" cond_true
    ↔ ((true ≡ false) ⊎ ((true ≡ true) × DeploymentHasFailed demo (some failed_deployment)))
degraded_iff_example =
    degraded_iff condition_table-IsConditionApi 100 demo failed_observation
      valid_reference_validation

build-Reports_example :
    Reports condition_table
      (build_runtime_status condition_table 100 demo served_observation valid_reference_validation)
      (pos 3)
      (row true false true true false)
unfolding desired_replica_count initial_deployment_replicas autoscaling_enabled desired_replicas
    deployment_failure find_deadline_exceeded find_replica_failure ◌==ℤ◌ ltb_ℤ
build-Reports_example =
    build-Reports condition_table-IsConditionApi 100 demo served_observation
      valid_reference_validation

-- No replica is declared, and an autoscaler is enabled.
observe-complete_iff_example :
    (observe_deployment_rollout demo (some served) ≡ rollout_complete) ↔ (
      (deployment_has_rollout_failure (some served) ≡ false)
      × IsConverged served (desired_replica_count demo (some served)))
observe-complete_iff_example = observe-complete_iff demo served

observe-failed_iff_example :
    (observe_deployment_rollout demo (some failed_deployment) ≡ rollout_failed)
    ↔ (is_some (deployment_failure failed_deployment) ≡ true)
observe-failed_iff_example = observe-failed_iff demo failed_deployment
