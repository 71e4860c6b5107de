-- ===== src/Tests/TurnRuns.antt =====
-- The status over several reconciliations, at concrete turns.
use trussium_operator.Prelude.{◌≡◌, refl, some, List, [], ◌∷◌}
use trussium_operator.Prelude.Int.{pos, ◌==ℤ◌, ltb_ℤ}
use trussium_operator.Kube.Condition.{Condition, cond_true, cond_false}
use trussium_operator.Resources.Identity.{runtime_image}
use trussium_operator.Resources.Deployments.{build_deployment}
use trussium_operator.Resources.Scale.{
  desired_replicas, desired_replica_count, initial_deployment_replicas, autoscaling_enabled,
}
use trussium_operator.Api.{TrussiumRuntime, TrussiumRuntimeStatus}
use trussium_operator.Status.References.{valid_reference_validation}
use trussium_operator.Status.Rollout.{
  observe_deployment_rollout, deployment_failure, find_deadline_exceeded, find_replica_failure,
  deployment_current_image,
}
use trussium_operator.Status.Conditions.{
  runtime_condition, preserve_times, preserve_runtime_condition_transition_times,
  set_runtime_condition, set_availability_condition,
}
use trussium_operator.Status.Conditions.Lookup.{Verdict, read}
use trussium_operator.Status.Base.{
  deployed_status, at_zero_status, towards_zero_status, failed_status, ready_status,
  progressing_status, build_base_runtime_status,
}
use trussium_operator.Status.Upgrade.{
  first_rollout_status, same_image_status, upgrade_step_status, upgrade_status,
  apply_upgrade_status,
}
use trussium_operator.Status.Build.{build_runtime_status, build_reconciliation_failure_status}
use trussium_operator.Events.Rounds.{observed, failed, stored}
use trussium_operator.Events.Latest.{Turn, after}
use trussium_operator.Events.Dates.{since, stored-since}
use trussium_operator.Events.Stuck.{upgrading_stays}
use trussium_operator.Tests.Conditions.{condition_table, condition_table-IsConditionApi}
use trussium_operator.Tests.Fixtures.{
  demo, demo_status, upgrading, served_observation, failed_observation, refused_call,
}
use trussium_operator.Tests.UpgradeRuns.{differ, v1}

-- The specification was set back to the image that served before.
abbrev reverted : TrussiumRuntime
reverted = record demo {
  spec = record (demo.spec) { image = record (demo.spec.image) { tag = some "v1" } };
}

abbrev stale : Verdict
stale = record {
  status = cond_true;
  reason = "UpgradeInProgress";
  message = "Runtime image is upgrading.";
  generation = pos 2;
}

reverted_image : runtime_image reverted.spec.image ≡ demo_status.last_successful_image
unfolding runtime_image
reverted_image = refl

still_upgrading : read condition_table demo_status "Upgrading" ≡ some stale
unfolding read
still_upgrading = refl

-- Version 2 is served, then a reconciliation fails, and then version 1 is asked for.
abbrev turns : List Turn
turns =
    record { runtime = demo; round = observed 100 served_observation valid_reference_validation }
    ∷ record { runtime = demo; round = failed 130 failed_observation refused_call }
    ∷ record {
      runtime = reverted;
      round = observed 160 failed_observation valid_reference_validation;
    }
    ∷ []

abbrev back : List Turn
back =
    record {
      runtime = reverted;
      round = observed 100 served_observation valid_reference_validation;
    }
    ∷ record { runtime = reverted; round = failed 130 served_observation refused_call }
    ∷ []

upgrading_stays_example :
    read condition_table (after condition_table back demo_status) "Upgrading" ≡ some stale
upgrading_stays_example =
    upgrading_stays condition_table-IsConditionApi back demo_status (differ v1 "" refl)
      (reverted_image, (reverted_image, tt)) still_upgrading

-- The runtime was found not ready at 70; the observation shows it ready, and the reconciliation fails.
abbrev not_ready : Condition
not_ready = record upgrading { type = "Ready"; status = cond_false; last_transition_time = 70 }

abbrev waiting : TrussiumRuntimeStatus
waiting = record demo_status { conditions = upgrading ∷ not_ready ∷ [] }

abbrev still_not_ready : Condition
still_not_ready = record {
  type = "Ready";
  status = cond_false;
  observed_generation = pos 3;
  last_transition_time = 70;
  reason = "ReconciliationFailed";
  message = "Runtime reconciliation failed: forbidden";
}

ready_found :
    runtime_condition condition_table
      (stored condition_table demo (failed 130 served_observation refused_call) waiting)
      "Ready"
    ≡ some still_not_ready
unfolding preserve_runtime_condition_transition_times preserve_times
    build_reconciliation_failure_status build_runtime_status build_base_runtime_status
    apply_upgrade_status upgrade_status first_rollout_status same_image_status upgrade_step_status
    deployed_status at_zero_status towards_zero_status failed_status ready_status progressing_status
    set_runtime_condition set_availability_condition desired_replica_count
    initial_deployment_replicas autoscaling_enabled desired_replicas deployment_failure
    find_deadline_exceeded find_replica_failure observe_deployment_rollout deployment_current_image
    runtime_image build_deployment ◌==ℤ◌ ltb_ℤ
ready_found = refl

stored-since_example : 70 ≡ since 130 (some not_ready) cond_false
stored-since_example =
    stored-since condition_table-IsConditionApi demo (failed 130 served_observation refused_call)
      waiting "Ready" ready_found
