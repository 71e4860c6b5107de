-- ===== src/Reconcile/Cluster/Kept.antt =====
-- reconcileCoreResources of trussiumruntime_controller.go leaves objects that are as specified.
use trussium_operator.Prelude.{
  ◌≡◌, refl, sym, ap, subst, ◌∙◌, Bool, true, false, Option, none, some, String,
}
use trussium_operator.Kube.{NamespacedName}
use trussium_operator.Kube.Errors.{Result, ok}
use trussium_operator.Api.{TrussiumRuntime, RuntimeNetworkPolicySpec}
use trussium_operator.Resources.Scale.{autoscaling_enabled}
use trussium_operator.Events.{runtime_key}
use trussium_operator.Reconcile.Platform.{Platform}
use trussium_operator.Reconcile.Monad.{World, M, pure, step}
use trussium_operator.Reconcile.Mutate.{
  mutate_config_map, mutate_service_account, mutate_service, mutate_deployment,
  mutate_pod_disruption_budget, mutate_network_policy, mutate_horizontal_pod_autoscaler,
}
use trussium_operator.Reconcile.Resources.{
  enabled_policy, reconcile_config_map, reconcile_service_account, reconcile_service,
  reconcile_deployment, reconcile_pod_disruption_budget, network_policy_step,
  reconcile_network_policy, autoscaler_step, reconcile_horizontal_pod_autoscaler,
  reconcile_core_resources,
}
use trussium_operator.Reconcile.Cluster.{
  Managed, storing_config_map, storing_service_account, storing_service, storing_deployment,
  storing_pod_disruption_budget, storing_network_policy, storing_horizontal_pod_autoscaler, Puts,
  IsStore, held, Holds, ConfigMapOf, ServiceAccountOf, ServiceOf, DeploymentOf,
  PodDisruptionBudgetOf, NetworkPolicyOf, AutoscalerOf, AsSpecified,
}
use trussium_operator.Reconcile.Cluster.Ensures.{Ensures, Then, step-Ensures}
use trussium_operator.Reconcile.Cluster.Unmoved.{
  Leaves, config_map-Leaves, service_account-Leaves, service-Leaves, deployment-Leaves,
  budget-Leaves, network_policy-Leaves, autoscaler-Leaves,
}

module _ {p : Platform} (store : IsStore p) (r : TrussiumRuntime) where
  -- Objects as specified stay as they are.
  abbrev Stays : Managed → Managed → Type 0
  Stays x y = AsSpecified p r x → y ≡ x

  Put-Stays :
      {A : Type 0}
      (call : NamespacedName → (A → Result A) → p.Cluster → Result (Unit {0}) × p.Cluster)
      (get : Managed → Option A) (put : Managed → A → Managed) (f : A → Result A) (P : A → Type 0)
      → Puts p store.managed call get put
      → Leaves p r f P
      → ((x : Managed) (a : A) → get x ≡ some a → put x a ≡ x)
      → (c : p.Cluster) → (call (runtime_key r) f c).0 ≡ ok tt
      → Holds (get (store.managed (runtime_key r) c)) P
      → store.managed (runtime_key r) (call (runtime_key r) f c).1 ≡ store.managed (runtime_key r) c
  Put-Stays call get put f P puts leaves back c h (o, there, good) =
      let (a, b, made, latest, same) = puts (runtime_key r) f c h in
      let kept : b ≡ o = let e = latest o there in let left = leaves o good in cc in
      same
      ∙ (ap (put (store.managed (runtime_key r) c)) kept
          ∙ back (store.managed (runtime_key r) c) o there)

  policy-Stays :
      (n : Option RuntimeNetworkPolicySpec)
      → Ensures store r
          (network_policy_step p r n)
          (λ x y. NetworkPolicyOf p r n x.network_policy → y ≡ x)
  unfolding Ensures
  policy-Stays none w h gone =
      store.network_policy_deleted (runtime_key r) w.cluster h
      ∙ ap (λ x. record (held store r w) { network_policy = x }) (sym gone)
  policy-Stays (some n) w h there =
      Put-Stays p.create_or_update_network_policy (λ x. x.network_policy) storing_network_policy
        (mutate_network_policy p r n) _ store.network_policy_put (network_policy-Leaves p r n)
        (λ x a e. ap (λ l. record x { network_policy = l }) (sym e)) w.cluster h there

  autoscaler-Stays :
      (b : Bool)
      → Ensures store r
          (autoscaler_step p r b)
          (λ x y. AutoscalerOf p r b x.horizontal_pod_autoscaler → y ≡ x)
  unfolding Ensures
  autoscaler-Stays false w h gone =
      store.autoscaler_deleted (runtime_key r) w.cluster h
      ∙ ap (λ x. record (held store r w) { horizontal_pod_autoscaler = x }) (sym gone)
  autoscaler-Stays true w h there =
      Put-Stays p.create_or_update_horizontal_pod_autoscaler (λ x. x.horizontal_pod_autoscaler)
        storing_horizontal_pod_autoscaler (mutate_horizontal_pod_autoscaler p r) _
        store.autoscaler_put (autoscaler-Leaves p r)
        (λ x a e. ap (λ l. record x { horizontal_pod_autoscaler = l }) (sym e)) w.cluster h there

  config_map-Stays : Ensures store r (reconcile_config_map p r) Stays
  unfolding Ensures reconcile_config_map
  config_map-Stays w h good =
      Put-Stays p.create_or_update_config_map (λ x. x.config_map) storing_config_map
        (mutate_config_map p r) (ConfigMapOf p r) store.config_map_put (config_map-Leaves p r)
        (λ x a e. ap (λ l. record x { config_map = l }) (sym e)) w.cluster h (good.0)

  service_account-Stays : Ensures store r (reconcile_service_account p r) Stays
  unfolding Ensures reconcile_service_account
  service_account-Stays w h good =
      Put-Stays p.create_or_update_service_account (λ x. x.service_account) storing_service_account
        (mutate_service_account p r) (ServiceAccountOf p r) store.service_account_put
        (service_account-Leaves p r) (λ x a e. ap (λ l. record x { service_account = l }) (sym e))
        w.cluster h (good.1)

  service-Stays : Ensures store r (reconcile_service p r) Stays
  unfolding Ensures reconcile_service
  service-Stays w h good =
      Put-Stays p.create_or_update_service (λ x. x.service) storing_service (mutate_service p r)
        (ServiceOf p r) store.service_put (service-Leaves p r)
        (λ x a e. ap (λ l. record x { service = l }) (sym e)) w.cluster h (good.2)

  deployment-Stays : Ensures store r (reconcile_deployment p r) Stays
  unfolding Ensures reconcile_deployment
  deployment-Stays w h good =
      Put-Stays p.create_or_update_deployment (λ x. x.deployment) storing_deployment
        (mutate_deployment p r) (DeploymentOf p r) store.deployment_put (deployment-Leaves p r)
        (λ x a e. ap (λ l. record x { deployment = l }) (sym e)) w.cluster h (good.3)

  budget-Stays : Ensures store r (reconcile_pod_disruption_budget p r) Stays
  unfolding Ensures reconcile_pod_disruption_budget
  budget-Stays w h good =
      Put-Stays p.create_or_update_pod_disruption_budget (λ x. x.pod_disruption_budget)
        storing_pod_disruption_budget (mutate_pod_disruption_budget p r) (PodDisruptionBudgetOf p r)
        store.budget_put (budget-Leaves p r)
        (λ x a e. ap (λ l. record x { pod_disruption_budget = l }) (sym e)) w.cluster h (good.4)

  Then-Stays : (x z : Managed) → Then store r Stays Stays x z → Stays x z
  Then-Stays x z (y, first, then) good =
      let same = first good in then (subst (AsSpecified p r) (sym same) good) ∙ same

  step-Stays :
      (action : M p.Cluster (Result (Unit {0}))) (text : String)
      (rest : M p.Cluster (Result (Unit {0})))
      → Ensures store r action Stays
      → Ensures store r rest Stays
      → Ensures store r (step action text rest) Stays
  unfolding Ensures
  step-Stays action text rest first then w h =
      Then-Stays _ _ (step-Ensures store r action text rest Stays Stays first then w h)

  network_policy-Stays : Ensures store r (reconcile_network_policy p r) Stays
  unfolding Ensures reconcile_network_policy
  network_policy-Stays w h good = policy-Stays (enabled_policy r.spec.network_policy) w h (good.5)

  horizontal_pod_autoscaler-Stays : Ensures store r (reconcile_horizontal_pod_autoscaler p r) Stays
  unfolding Ensures reconcile_horizontal_pod_autoscaler
  horizontal_pod_autoscaler-Stays w h good = autoscaler-Stays (autoscaling_enabled r) w h (good.6)

  nothing-Stays : Ensures store r (pure (ok tt)) Stays
  unfolding Ensures
  nothing-Stays w h good = refl

  all-Stays : Ensures store r (reconcile_core_resources p r) Stays
  unfolding reconcile_core_resources
  all-Stays = step-Stays _ _ _ config_map-Stays (
      step-Stays _ _ _ service_account-Stays (
        step-Stays _ _ _ service-Stays (
          step-Stays _ _ _ deployment-Stays (
            step-Stays _ _ _ budget-Stays (
              step-Stays _ _ _ network_policy-Stays
                (step-Stays _ _ _ horizontal_pod_autoscaler-Stays nothing-Stays))))))

  -- Where the seven steps succeed on objects as specified, they change nothing.
  pub core_resources-Stays :
      (w : World p.Cluster)
      → (reconcile_core_resources p r w).0 ≡ ok tt
      → AsSpecified p r (held store r w)
      → held store r (reconcile_core_resources p r w).1 ≡ held store r w
  unfolding Ensures
  core_resources-Stays w h good = all-Stays w h good
