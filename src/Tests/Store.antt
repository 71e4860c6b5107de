-- ===== src/Tests/Store.antt =====
-- A concrete API server that stores the managed objects of one runtime.
use trussium_operator.Prelude.{
  ◌≡◌, refl, ap, true, Option, none, some, [], ◌∷◌, contains, if◌then◌else◌,
}
use trussium_operator.Prelude.Int.{pos}
use trussium_operator.Kube.{NamespacedName}
use trussium_operator.Kube.Errors.{Result, ok, err}
use trussium_operator.Resources.Objects.{
  build_config_map, build_service_account, build_service, build_pod_disruption_budget,
  build_network_policy, build_horizontal_pod_autoscaler,
}
use trussium_operator.Reconcile.Platform.{Platform}
use trussium_operator.Reconcile.Monad.{World}
use trussium_operator.Reconcile.Cluster.{
  Managed, storing_config_map, storing_service_account, storing_service, storing_deployment,
  storing_pod_disruption_budget, storing_network_policy, storing_horizontal_pod_autoscaler, Puts,
  IsStore,
}
use trussium_operator.Tests.Conditions.{condition_table}
use trussium_operator.Tests.Equality.{statuses_eqb}
use trussium_operator.Tests.Fixtures.{
  demo, served, not_found, plain_digest, demo_network_policy, autoscaled_demo,
}
use trussium_operator.Tests.Server.{is_not_found, found, set_owner}

abbrev pub based : {A : Type 0} → A → Option A → A
based new none = new
based new (some a) = a

abbrev put_result :
    {A : Type 0} → (Managed → A → Managed) → Managed → Result A → Result (Unit {0}) × Managed
put_result put c (ok b) = (ok tt, put c b)
put_result put c (err e) = (err e, c)

abbrev pub put_into :
    {A : Type 0}
    → A
    → (Managed → Option A)
    → (Managed → A → Managed)
    → NamespacedName
    → (A → Result A)
    → Managed
    → Result (Unit {0}) × Managed
put_into new get put k f c = put_result put c (f (based new (get c)))

abbrev pub answer : {A : Type 0} → Option A → Result (Unit {0})
answer none = err not_found
answer (some a) = ok tt

abbrev deleted :
    {A : Type 0}
    → (Managed → Option A)
    → (Managed → Managed)
    → NamespacedName
    → Managed
    → Result (Unit {0}) × Managed
deleted get drop k c = (answer (get c), drop c)

abbrev pub store_server : Platform
store_server = record {
  Cluster = Managed;
  is_not_found = is_not_found;
  deep_equal = statuses_eqb;
  conditions = condition_table;
  sha256_hex = plain_digest;
  now = 100;
  recorder = true;
  set_controller_reference = set_owner;
  get_runtime = λ k c. (found c.runtime, c);
  get_secret = λ k c. (c.secret k, c);
  get_deployment = λ k c. (found c.deployment, c);
  get_service = λ k c. (found c.service, c);
  list_runtimes = λ n c. (ok (record { items = demo ∷ [] }), c);
  update_status = λ r c. (ok r, record c { runtime = some r });
  create_or_update_config_map =
      put_into (build_config_map demo) (λ x. x.config_map) storing_config_map;
  create_or_update_service_account =
      put_into (build_service_account demo) (λ x. x.service_account) storing_service_account;
  create_or_update_service = put_into (build_service demo) (λ x. x.service) storing_service;
  create_or_update_deployment = put_into served (λ x. x.deployment) storing_deployment;
  create_or_update_pod_disruption_budget =
      put_into (build_pod_disruption_budget demo) (λ x. x.pod_disruption_budget)
        storing_pod_disruption_budget;
  create_or_update_network_policy =
      put_into (build_network_policy demo demo_network_policy) (λ x. x.network_policy)
        storing_network_policy;
  create_or_update_horizontal_pod_autoscaler =
      put_into (build_horizontal_pod_autoscaler autoscaled_demo) (λ x. x.horizontal_pod_autoscaler)
        storing_horizontal_pod_autoscaler;
  delete_network_policy = deleted (λ x. x.network_policy) (λ x. record x { network_policy = none });
  delete_horizontal_pod_autoscaler =
      deleted (λ x. x.horizontal_pod_autoscaler)
        (λ x. record x { horizontal_pod_autoscaler = none });
}

abbrev held_objects : NamespacedName → Managed → Managed
held_objects k c = c

pub put_into-Puts :
    {A : Type 0} (new : A) (get : Managed → Option A) (put : Managed → A → Managed)
    → Puts store_server held_objects (put_into new get put) get put
put_into-Puts {A} new get put k f c = go (f (based new (get c))) refl
  where
    go :
        (x : Result A)
        → f (based new (get c)) ≡ x
        → (put_result put c x).0 ≡ ok tt
        → (a b : A) × (f a ≡ ok b)
          × ((y : A) → get c ≡ some y → a ≡ y)
          × ((put_result put c x).1 ≡ put c b)
    go (ok b) e h = (based new (get c), b, e, (λ y there. ap (based new) there), refl)
    go (err x) e h = cc

abbrev pub store_server-IsStore : IsStore store_server
store_server-IsStore = record {
  managed = held_objects;
  config_map_put = put_into-Puts (build_config_map demo) (λ x. x.config_map) storing_config_map;
  service_account_put =
      put_into-Puts (build_service_account demo) (λ x. x.service_account) storing_service_account;
  service_put = put_into-Puts (build_service demo) (λ x. x.service) storing_service;
  deployment_put = put_into-Puts served (λ x. x.deployment) storing_deployment;
  budget_put =
      put_into-Puts (build_pod_disruption_budget demo) (λ x. x.pod_disruption_budget)
        storing_pod_disruption_budget;
  network_policy_put =
      put_into-Puts (build_network_policy demo demo_network_policy) (λ x. x.network_policy)
        storing_network_policy;
  autoscaler_put =
      put_into-Puts (build_horizontal_pod_autoscaler autoscaled_demo)
        (λ x. x.horizontal_pod_autoscaler) storing_horizontal_pod_autoscaler;
  network_policy_deleted = λ k c h. refl;
  autoscaler_deleted = λ k c h. refl;
  deployment_read = λ j k c. refl;
  service_read = λ j k c. refl;
  secret_read = λ j k c. refl;
  runtime_read = λ j k c. refl;
  deployment_answer = λ k c d h. ap found h;
  service_answer = λ k c d h. ap found h;
  secret_answer = λ j k c. refl;
  runtime_answer = λ k c r h. ap found h;
  status_update = λ r c. (some r, refl, λ x h. refl);
}

-- The ConfigMap's contents are lost, three objects are missing, and an autoscaler is left over.
abbrev pub drifted : World Managed
drifted = record {
  cluster = record {
    config_map = some (record (build_config_map demo) { contents = [] });
    service_account = none;
    service = none;
    deployment = some (record served { spec = record (served.spec) { replicas = some (pos 7) } });
    pod_disruption_budget = none;
    network_policy = some (build_network_policy demo demo_network_policy);
    horizontal_pod_autoscaler = some (build_horizontal_pod_autoscaler autoscaled_demo);
    runtime = some demo;
    secret = λ k. if contains ("openai" ∷ "registry" ∷ []) k.name then ok tt else err not_found;
  };
  events = [];
  writes = [];
}
