-- ===== src/Tests/ReconcileRuns.antt =====
-- The theorems of the reconciler against the concrete server.
use trussium_operator.Prelude.{
  sym, ap, subst, ◌≡◌, refl, ◌⊎◌, true, false, some, List, [], ◌∷◌, map,
}
use trussium_operator.Prelude.Sort.{sort, sort_insert}
use trussium_operator.Kube.{NamespacedName}
use trussium_operator.Kube.Errors.{Error, ok, err}
use trussium_operator.Kube.Workload.{Deployment}
use trussium_operator.Api.{TrussiumRuntime, TrussiumRuntimeStatus, TrussiumRuntimeList}
use trussium_operator.Resources.Deployments.{build_deployment}
use trussium_operator.Resources.Scale.{autoscaling_enabled}
use trussium_operator.Resources.Objects.{
  build_config_map, build_service_account, build_service, build_pod_disruption_budget,
  build_network_policy, build_horizontal_pod_autoscaler,
}
use trussium_operator.Status.References.{
  referenced_secret_names, runtime_references_secret, unique_names, add_references,
}
use trussium_operator.Events.{runtime_key}
use trussium_operator.Reconcile.Load.{check_secrets, validate_secret_references}
use trussium_operator.Reconcile.Resources.Order.{plan}
use trussium_operator.Reconcile.Update.Writes.{AtMostStatus}
use trussium_operator.Reconcile.Platform.{Platform}
use trussium_operator.Reconcile.Pass.{reconcile_runtime, handle_reconciliation_failure}
use trussium_operator.Reconcile.Pass.Effects.{
  PrefixThenStatus, unresolved-OnlyStatus, pass-PrefixThenStatus,
}
use trussium_operator.Reconcile.Pass.Outcome.{Told, KeepsName, pass-Told}
use trussium_operator.Reconcile.Secrets.{
  Naming, map_secret_to_runtimes, references_secret_iff, map_secret_to_runtimes_lem,
}
use trussium_operator.Reconcile.Mutate.{
  mutate_config_map, mutate_service_account, mutate_service, mutate_deployment,
  mutate_pod_disruption_budget, mutate_network_policy, mutate_horizontal_pod_autoscaler,
}
use trussium_operator.Reconcile.Mutate.Stable.{twice, mutations_settle}
use trussium_operator.Reconcile.Mutate.Replicas.{replicas_after, mutate_deployment_lem}
use trussium_operator.Tests.Fixtures.{
  demo, demo_status, demo_network_policy, autoscaled_demo, served, plain_digest, upgrading,
  refused_call,
}
use trussium_operator.Tests.Server.{server_owns, server, calm, lacking, owner_of}

-- The Secret of the registry is found to be missing.
lacking_invalid : (validate_secret_references server demo lacking).0.valid ≡ false
unfolding validate_secret_references check_secrets referenced_secret_names unique_names
    add_references sort sort_insert
lacking_invalid = refl

unresolved-OnlyStatus_example : AtMostStatus [] (reconcile_runtime server demo lacking).1.writes
unresolved-OnlyStatus_example = unresolved-OnlyStatus server demo lacking lacking_invalid

pass-PrefixThenStatus_example :
    PrefixThenStatus (plan demo) [] (reconcile_runtime server demo calm).1.writes
pass-PrefixThenStatus_example = pass-PrefixThenStatus server demo calm

-- No Secret can be read.
abbrev barred : Platform
barred = record server { get_secret = λ k s. (err refused_call, s) }

barred-KeepsName : KeepsName barred
barred-KeepsName r x c h = let e : r ≡ x = cc in ap runtime_key (sym e)

barred_fails : (e : Error) × ((reconcile_runtime barred demo calm).0 ≡ some e)
unfolding reconcile_runtime validate_secret_references check_secrets referenced_secret_names
    unique_names add_references sort sort_insert handle_reconciliation_failure
barred_fails = (_, refl)

pass-Told_example :
    (e : Error) × Told true
      (runtime_key demo)
      []
      (some e)
      (reconcile_runtime barred demo calm).1.events
pass-Told_example =
    let (e, h) = barred_fails in
    (
      e,
      subst (λ x. Told true (runtime_key demo) [] x (reconcile_runtime barred demo calm).1.events) h
          (pass-Told barred barred-KeepsName demo calm),
    )

abbrev wanted_status : TrussiumRuntimeStatus
wanted_status = record demo_status {
  conditions = record upgrading { last_transition_time = 100; message = "Still upgrading." } ∷ [];
}

references_secret_iff_example : runtime_references_secret demo "registry" ≡ true
references_secret_iff_example = references_secret_iff demo "registry"

map_secret_to_runtimes_lem_example :
    let secret : NamespacedName = record { namespace = "ai"; name = "registry" } in
    let after = map_secret_to_runtimes server secret calm in
    (after.1.writes ≡ [])
    × (after.1.events ≡ [])
    × (((e : Error) × ((server.list_runtimes "ai" calm.cluster).0 ≡ err e) × (after.0 ≡ []))
        ⊎ ((l : TrussiumRuntimeList) × (chosen : List TrussiumRuntime) × ((server.list_runtimes "ai"
                calm.cluster).0
              ≡ ok l)
            × Naming "registry" l.items chosen
            × (after.0 ≡ map runtime_key chosen)))
map_secret_to_runtimes_lem_example =
    map_secret_to_runtimes_lem server (record { namespace = "ai"; name = "registry" }) calm

mutations_settle_example :
    (twice (mutate_config_map server demo) (build_config_map demo)
      ≡ mutate_config_map server demo (build_config_map demo))
    × (twice (mutate_service_account server demo) (build_service_account demo)
        ≡ mutate_service_account server demo (build_service_account demo))
    × (twice (mutate_service server demo) (build_service demo)
        ≡ mutate_service server demo (build_service demo))
    × (twice (mutate_deployment server demo) served ≡ mutate_deployment server demo served)
    × (twice (mutate_pod_disruption_budget server demo) (build_pod_disruption_budget demo)
        ≡ mutate_pod_disruption_budget server demo (build_pod_disruption_budget demo))
    × (twice
          (mutate_network_policy server demo demo_network_policy)
          (build_network_policy demo demo_network_policy)
        ≡ mutate_network_policy server demo demo_network_policy
            (build_network_policy demo demo_network_policy))
    × (twice (mutate_horizontal_pod_autoscaler server demo) (build_horizontal_pod_autoscaler demo)
        ≡ mutate_horizontal_pod_autoscaler server demo (build_horizontal_pod_autoscaler demo))
mutations_settle_example =
    mutations_settle server server_owns demo demo_network_policy (build_config_map demo)
      (build_service_account demo) (build_service demo) served (build_pod_disruption_budget demo)
      (build_network_policy demo demo_network_policy) (build_horizontal_pod_autoscaler demo)

-- The served Deployment, owned by the runtime.
abbrev owned_deployment : Deployment
owned_deployment = record (build_deployment plain_digest autoscaled_demo) {
  meta = record (build_deployment plain_digest autoscaled_demo).meta {
    owner_references = owner_of autoscaled_demo ∷ [];
  };
}

autoscaled_stored :
    mutate_deployment server autoscaled_demo (build_deployment plain_digest autoscaled_demo)
    ≡ ok owned_deployment
unfolding mutate_deployment build_deployment autoscaling_enabled
autoscaled_stored = refl

mutate_deployment_lem_example :
    (owned_deployment.spec ≡ record ((build_deployment plain_digest autoscaled_demo).spec) {
      replicas = some (
          replicas_after autoscaled_demo
            (build_deployment plain_digest autoscaled_demo).spec.replicas);
    })
    × (owned_deployment.status ≡ (build_deployment plain_digest autoscaled_demo).status)
mutate_deployment_lem_example =
    mutate_deployment_lem server autoscaled_demo (build_deployment plain_digest autoscaled_demo)
      owned_deployment autoscaled_stored
