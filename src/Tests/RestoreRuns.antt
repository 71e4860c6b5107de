-- ===== src/Tests/RestoreRuns.antt =====
-- A pass over a cluster that has drifted.
use trussium_operator.Prelude.{◌++◌, ◌≡◌, refl, Option, true, none, some, inl, inr}
use trussium_operator.Prelude.Sort.{sort, sort_insert}
use trussium_operator.Kube.{NamespacedName}
use trussium_operator.Kube.Errors.{Result, ok}
use trussium_operator.Status.References.{referenced_secret_names, unique_names, add_references}
use trussium_operator.Resources.Objects.{
  build_config_map, build_service_account, build_service, build_pod_disruption_budget,
  build_network_policy, build_horizontal_pod_autoscaler,
}
use trussium_operator.Reconcile.Load.{check_secrets, validate_secret_references}
use trussium_operator.Reconcile.Mutate.Stable.{IsOwnership}
use trussium_operator.Events.{runtime_key}
use trussium_operator.Status.Conditions.Times.{HasUniqueTypes}
use trussium_operator.Reconcile.Resources.Order.{plan}
use trussium_operator.Reconcile.Pass.{reconcile_runtime, reconcile_body}
use trussium_operator.Reconcile.Pass.Twice.{pass_twice}
use trussium_operator.Tests.AgainRuns.{demo_named}
use trussium_operator.Tests.Conditions.{
  condition_table, condition_table-IsConditionApi, condition_table-SetsInPlace,
}
use trussium_operator.Tests.Equality.{statuses_eqb_iff}
use trussium_operator.Reconcile.Pass.Willing.{IsOk, IsAnswered, IsWilling}
use trussium_operator.Reconcile.Pass.Success.{pass-succeeds}
use trussium_operator.Reconcile.Pass.Restores.{pass-AsSpecified}
use trussium_operator.Reconcile.Cluster.{
  held, AsSpecified, Managed, storing_config_map, storing_service_account, storing_service,
  storing_deployment, storing_pod_disruption_budget, storing_network_policy,
  storing_horizontal_pod_autoscaler,
}
use trussium_operator.Tests.Fixtures.{demo, autoscaled_demo, demo_network_policy, served, not_found}
use trussium_operator.Tests.Server.{is_not_found, set_owner-keeps_labels, set_owner-again}
use trussium_operator.Tests.SuccessRuns.{found-IsAnswered}
use trussium_operator.Tests.Store.{
  store_server, store_server-IsStore, put_into, drifted, based, answer,
}

store_server_owns : IsOwnership store_server
store_server_owns = record { keeps_labels = set_owner-keeps_labels; again = set_owner-again }

answer-IsAnswered : {A : Type 0} (x : Option A) → IsAnswered is_not_found (answer x)
answer-IsAnswered none = inr (not_found, refl, refl)
answer-IsAnswered (some a) = inl (tt, refl)

put_into-Accepts :
    {A : Type 0} (new : A) (get : Managed → Option A) (put : Managed → A → Managed)
    (k : NamespacedName) (f : A → Result A)
    → ((a : A) → IsOk (f a))
    → (c : Managed) → (put_into new get put k f c).0 ≡ ok tt
put_into-Accepts new get put k f h c = let (b, e) = h (based new (get c)) in rw e refl

store_server-IsWilling : IsWilling store_server
store_server-IsWilling = record {
  owner_set = λ r m. (_, refl);
  deployment_read = λ k c. found-IsAnswered c.deployment;
  service_read = λ k c. found-IsAnswered c.service;
  status_stored = λ r c. (r, refl);
  config_map_stored =
      put_into-Accepts (build_config_map demo) (λ x. x.config_map) storing_config_map;
  service_account_stored =
      put_into-Accepts (build_service_account demo) (λ x. x.service_account)
        storing_service_account;
  service_stored = put_into-Accepts (build_service demo) (λ x. x.service) storing_service;
  deployment_stored = put_into-Accepts served (λ x. x.deployment) storing_deployment;
  budget_stored =
      put_into-Accepts (build_pod_disruption_budget demo) (λ x. x.pod_disruption_budget)
        storing_pod_disruption_budget;
  network_policy_stored =
      put_into-Accepts (build_network_policy demo demo_network_policy) (λ x. x.network_policy)
        storing_network_policy;
  autoscaler_stored =
      put_into-Accepts (build_horizontal_pod_autoscaler autoscaled_demo)
        (λ x. x.horizontal_pod_autoscaler) storing_horizontal_pod_autoscaler;
  network_policy_deleted = λ k c. answer-IsAnswered c.network_policy;
  autoscaler_deleted = λ k c. answer-IsAnswered c.horizontal_pod_autoscaler;
}

drifted_valid : (validate_secret_references store_server demo drifted).0.valid ≡ true
unfolding validate_secret_references check_secrets referenced_secret_names unique_names
    add_references sort sort_insert
drifted_valid = refl

pass-AsSpecified_example :
    AsSpecified store_server demo (reconcile_runtime store_server demo drifted).1.cluster
pass-AsSpecified_example =
    pass-AsSpecified store_server-IsStore store_server_owns demo drifted refl drifted_valid
      ((pass-succeeds store_server store_server-IsWilling demo drifted refl drifted_valid).0)

demo_unique : HasUniqueTypes condition_table demo.status.conditions
demo_unique = (refl, tt)

demo_stored : (held store_server-IsStore demo drifted).runtime ≡ some demo
demo_stored = refl

pass_twice_example :
    let (x1, w1) = reconcile_body store_server (runtime_key demo) drifted in
    let (x2, w2) = reconcile_body store_server (runtime_key demo) w1 in
    (x1 ≡ none)
    × (x2 ≡ none)
    × (w2.writes ≡ w1.writes ++ plan demo)
    × (w2.events ≡ w1.events)
    × (w2.cluster ≡ w1.cluster)
pass_twice_example =
    pass_twice store_server-IsStore store_server_owns (λ r s m. refl) store_server-IsWilling
      statuses_eqb_iff condition_table-IsConditionApi condition_table-SetsInPlace demo demo_unique
      demo_named refl drifted refl drifted_valid
