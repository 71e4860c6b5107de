-- ===== src/Tests/UpgradeRuns.antt =====
-- The theorems of upgrades, conditions and Events at a runtime that moves from v1 to v2.
use trussium_operator.Prelude.{
  ◌≡◌, refl, ◌≢◌, String, true, false, some, [], arith, eq_iff, ◌==◌, if◌then◌else◌,
}
use trussium_operator.Prelude.Int.{pos, ◌==ℤ◌, ltb_ℤ}
use trussium_operator.Kube.Condition.{cond_true, cond_false}
use trussium_operator.Resources.Identity.{runtime_image}
use trussium_operator.Resources.Scale.{
  desired_replicas, desired_replica_count, initial_deployment_replicas, autoscaling_enabled,
}
use trussium_operator.Status.References.{valid_reference_validation}
use trussium_operator.Status.Rollout.{
  observe_deployment_rollout, deployment_current_image, deployment_failure, find_deadline_exceeded,
  find_replica_failure,
}
use trussium_operator.Status.Base.Outcome.{Reports, row}
use trussium_operator.Status.Build.{build_runtime_status, build_reconciliation_failure_status}
use trussium_operator.Status.Build.Failure.{build_failure-Reports}
use trussium_operator.Status.Conditions.{condition_changed}
use trussium_operator.Status.Conditions.Lookup.{Verdict, ruling, read}
use trussium_operator.Status.Upgrade.{apply_upgrade_status}
use trussium_operator.Status.Upgrade.Steps.{upgrade_ruling}
use trussium_operator.Status.Upgrade.Tracking.{ruling-apply_upgrade}
use trussium_operator.Events.{record_upgrade_transition}
use trussium_operator.Events.Upgrades.{upgrade_event_of, upgrade_event-build}
use trussium_operator.Tests.Conditions.{condition_table, condition_table-IsConditionApi}
use trussium_operator.Tests.Fixtures.{demo, demo_status, served, served_observation, refused_call}

abbrev pub v1 : String
v1 = "ghcr.io/trussiumhq/trussium:v1"

abbrev v2 : String
v2 = "ghcr.io/trussiumhq/trussium:v2"

pub differ : (s t : String) → (s == t) ≡ false → s ≢ t
differ s t h e = ground (arith, eq_iff s t)

demo_image : runtime_image demo.spec.image ≡ v2
unfolding runtime_image
demo_image = refl

moved : runtime_image demo.spec.image ≢ demo.status.last_successful_image
unfolding runtime_image
moved = differ v2 v1 refl

named : runtime_image demo.spec.image ≢ ""
unfolding runtime_image
named = differ v2 "" refl

ruling-apply_upgrade_example :
    ruling (
      read condition_table
        (apply_upgrade_status condition_table 100 demo (some served) demo_status)
        "Upgrading")
    ≡ some (
        upgrade_ruling
          (observe_deployment_rollout demo (some served))
          (deployment_current_image (some served))
          (runtime_image demo.spec.image)
          (pos 3))
ruling-apply_upgrade_example =
    ruling-apply_upgrade condition_table-IsConditionApi 100 demo (some served) demo_status moved

abbrev demo_failure : Verdict
demo_failure = record {
  status = cond_false;
  reason = "ReconciliationFailed";
  message = "Runtime reconciliation failed: forbidden";
  generation = pos 3;
}

build_failure-Reports_example :
    let s =
      build_reconciliation_failure_status condition_table 100 demo served_observation
        refused_call in
    Reports condition_table s (pos 3) (row true false true false true)
    × (read condition_table s "Ready" ≡ some demo_failure)
    × (read condition_table s "Degraded" ≡ some (record demo_failure { status = cond_true }))
unfolding desired_replica_count initial_deployment_replicas autoscaling_enabled desired_replicas
    deployment_failure find_deadline_exceeded find_replica_failure ◌==ℤ◌ ltb_ℤ
build_failure-Reports_example =
    build_failure-Reports condition_table-IsConditionApi 100 demo served_observation refused_call

upgrade_event-build_example :
    record_upgrade_transition condition_table demo demo_status
      (build_runtime_status condition_table 100 demo served_observation valid_reference_validation)
    ≡ (if condition_changed condition_table demo_status
          (build_runtime_status condition_table 100 demo served_observation
            valid_reference_validation)
          "Upgrading"
        then upgrade_event_of demo
            (observe_deployment_rollout demo (some served))
            (deployment_current_image (some served))
            v1
            (runtime_image demo.spec.image)
        else [])
upgrade_event-build_example =
    upgrade_event-build condition_table-IsConditionApi 100 demo served_observation
      valid_reference_validation (differ v1 "" refl) named moved
