-- ===== src/Tests/AgainRuns.antt =====
-- The theorems of a repeated reconciliation against the concrete server.
use trussium_operator.Prelude.{◌≡◌, ◌≢◌, refl, ap, true, false, none, some, [], ◌∷◌, ◌++◌, eq_iff}
use trussium_operator.Prelude.Sort.{sort, sort_insert}
use trussium_operator.Kube.Errors.{ok}
use trussium_operator.Kube.Workload.{Deployment}
use trussium_operator.Api.{TrussiumRuntime, TrussiumRuntimeStatus}
use trussium_operator.Resources.Identity.{
  runtime_image, runtime_labels, runtime_selector_labels, merged_pod_labels, image_pull_secrets,
  runtime_node_selector, runtime_tolerations, runtime_affinity, provider_credential_env,
}
use trussium_operator.Resources.Config.{pod_annotations, runtime_config_data}
use trussium_operator.Resources.Scale.{
  initial_deployment_replicas, termination_grace_period_seconds, autoscaling_enabled,
  desired_autoscaling_min_replicas, desired_replicas,
}
use trussium_operator.Resources.Deployments.{build_deployment}
use trussium_operator.Status.References.{
  ReferenceValidationResult, valid_reference_validation, referenced_secret_names, unique_names,
  add_references,
}
use trussium_operator.Status.Rollout.{RuntimeObservation}
use trussium_operator.Status.Conditions.Times.{HasUniqueTypes}
use trussium_operator.Status.Build.{build_runtime_status, build_reconciliation_failure_status}
use trussium_operator.Events.{record_reconciliation_failure}
use trussium_operator.Reconcile.Monad.{step}
use trussium_operator.Reconcile.Mutate.{mutate_deployment, kept_replicas}
use trussium_operator.Reconcile.Load.{
  check_secrets, validate_secret_references, load_runtime_observation,
}
use trussium_operator.Reconcile.Resources.{
  reconcile_config_map, reconcile_service_account, reconcile_service, reconcile_deployment,
  reconcile_pod_disruption_budget, reconcile_network_policy, reconcile_horizontal_pod_autoscaler,
  reconcile_core_resources,
}
use trussium_operator.Reconcile.Resources.Order.{plan}
use trussium_operator.Reconcile.Update.{with_status, normalized}
use trussium_operator.Reconcile.Pass.{reconcile_runtime, handle_reconciliation_failure}
use trussium_operator.Reconcile.Pass.Willing.{core_resources-Succeeds}
use trussium_operator.Reconcile.Pass.Again.{pass_again, failure_again, Serves}
use trussium_operator.Tests.Conditions.{
  condition_table, condition_table-IsConditionApi, condition_table-SetsInPlace,
}
use trussium_operator.Tests.Equality.{statuses_eqb_iff}
use trussium_operator.Tests.Fixtures.{demo, served, plain_digest, refused_call}
use trussium_operator.Tests.Server.{server, calm, owner_of}
use trussium_operator.Tests.SuccessRuns.{server-IsWilling}

-- The Deployment as a pass leaves it.
abbrev written_deployment : Deployment
written_deployment =
    let desired = build_deployment plain_digest demo in
    record {
      meta = record (served.meta) {
        labels = desired.meta.labels;
        owner_references = owner_of demo ∷ [];
      };
      spec = record (desired.spec) {
        replicas = kept_replicas demo served.spec.replicas desired.spec.replicas;
      };
      status = served.status;
    }

abbrev seen : RuntimeObservation
seen = record { deployment = some written_deployment; service = none }

abbrev stored_demo : TrussiumRuntime
stored_demo = with_status demo (
    normalized server demo
      (build_runtime_status condition_table 50 demo seen valid_reference_validation))

demo_unique : HasUniqueTypes condition_table demo.status.conditions
demo_unique = (refl, tt)

pub demo_named : runtime_image demo.spec.image ≢ ""
unfolding runtime_image
demo_named h = let e : false ≡ true = (eq_iff (runtime_image demo.spec.image) "").1 h in cc

demo_checked : (validate_secret_references server stored_demo calm).0 ≡ valid_reference_validation
unfolding validate_secret_references check_secrets referenced_secret_names unique_names
    add_references sort sort_insert
demo_checked = refl

-- The status plays no part in the Deployment.
build_deployment-status :
    (r : TrussiumRuntime) (s : TrussiumRuntimeStatus)
    → build_deployment plain_digest (record r { status = s }) ≡ build_deployment plain_digest r
unfolding build_deployment runtime_labels initial_deployment_replicas runtime_selector_labels
    merged_pod_labels pod_annotations termination_grace_period_seconds image_pull_secrets
    runtime_node_selector runtime_tolerations runtime_affinity provider_credential_env
    autoscaling_enabled desired_autoscaling_min_replicas desired_replicas runtime_config_data
build_deployment-status r s = refl

stored_seen :
    (s : TrussiumRuntimeStatus)
    → let r = record demo { status = s } in
      (load_runtime_observation server r
        (reconcile_core_resources server r (validate_secret_references server r calm).1).1).0
      ≡ ok seen
unfolding validate_secret_references check_secrets referenced_secret_names unique_names
    add_references sort sort_insert reconcile_core_resources step reconcile_config_map
    reconcile_service_account reconcile_service reconcile_deployment reconcile_pod_disruption_budget
    reconcile_network_policy reconcile_horizontal_pod_autoscaler load_runtime_observation
    mutate_deployment autoscaling_enabled
stored_seen s = rw (build_deployment-status demo s)

demo-Serves : Serves server statuses_eqb_iff stored_demo calm seen
demo-Serves = (
  ap (λ (v : ReferenceValidationResult). v.valid) demo_checked,
  core_resources-Succeeds server server-IsWilling stored_demo _,
  stored_seen stored_demo.status,
)

pass_again_example :
    let out = reconcile_runtime server stored_demo calm in
    (out.0 ≡ none) × (out.1.writes ≡ [] ++ plan stored_demo) × (out.1.events ≡ [])
pass_again_example =
    pass_again server statuses_eqb_iff condition_table-IsConditionApi condition_table-SetsInPlace 50
      demo seen demo_unique demo_named calm valid_reference_validation refl demo_checked demo-Serves

abbrev failed_demo : TrussiumRuntime
failed_demo = with_status demo (
    normalized server demo (
      build_reconciliation_failure_status condition_table 50 demo
        (record { deployment = some served; service = none }) refused_call))

failure_again_example :
    let out =
      handle_reconciliation_failure server failed_demo failed_demo.status refused_call calm in
    (out.0 ≡ some refused_call)
    × (out.1.writes ≡ [])
    × (out.1.events ≡ [] ++ record_reconciliation_failure failed_demo refused_call true)
failure_again_example =
    failure_again server statuses_eqb_iff condition_table-IsConditionApi condition_table-SetsInPlace
      50 demo (record { deployment = some served; service = none }) demo_unique demo_named calm
      refused_call (unfold load_runtime_observation in refl)
