-- ===== src/Tests/EventRuns.antt =====
-- The Events of a reconciliation that completes an upgrade.
use trussium_operator.Prelude.{◌≡◌, ◌≤◌, true, not, ◌++◌, List, [], ◌∷◌}
use trussium_operator.Api.{TrussiumRuntimeStatus}
use trussium_operator.Status.References.{valid_reference_validation}
use trussium_operator.Status.Build.{build_runtime_status}
use trussium_operator.Events.{
  normal, warning, record_upgrade_transition, record_status_transition_events,
}
use trussium_operator.Events.Phases.{
  truths, if_changed, degradation, ready_reason, transition_events-build,
}
use trussium_operator.Events.Completions.{completions}
use trussium_operator.Events.Rounds.{Round, observed, failed, all_events}
use trussium_operator.Events.Once.{completed_once}
use trussium_operator.Tests.AgainRuns.{demo_named}
use trussium_operator.Tests.Conditions.{condition_table, condition_table-IsConditionApi}
use trussium_operator.Tests.Fixtures.{demo, demo_status, served_observation, refused_call}

abbrev built : TrussiumRuntimeStatus
built = build_runtime_status condition_table 100 demo served_observation valid_reference_validation

transition_events-build_example :
    let t = truths demo served_observation true in
    record_status_transition_events condition_table demo demo_status built true
    ≡ if_changed condition_table demo demo_status built
        (not t.configuration_valid)
        "ConfigurationValid"
        warning
        "ConfigurationInvalid"
        "ValidateConfiguration"
      ++ (record_upgrade_transition condition_table demo demo_status built
          ++ (degradation condition_table demo demo_status built t.degraded
              ++ (if_changed condition_table demo demo_status built t.progressing "Progressing"
                    normal "RuntimeProgressing" "ReconcileRuntime"
                  ++ if_changed condition_table demo demo_status built t.ready "Ready" normal
                      (ready_reason condition_table demo demo_status built)
                      "ObserveRuntime")))
transition_events-build_example =
    transition_events-build condition_table-IsConditionApi 100 demo served_observation
      valid_reference_validation demo_status

-- The image of the fixture is rolled out, seen a second time, and then a reconciliation fails.
abbrev rounds : List Round
rounds =
    observed 100 served_observation valid_reference_validation
    ∷ observed 130 served_observation valid_reference_validation
    ∷ failed 160 served_observation refused_call
    ∷ []

abbrev before : TrussiumRuntimeStatus
before = record demo_status { last_successful_image = "ghcr.io/trussiumhq/trussium:v0" }

completed_once_example : completions (all_events condition_table demo true rounds before) ≤ 1
completed_once_example =
    completed_once condition_table-IsConditionApi demo true rounds before demo_named
