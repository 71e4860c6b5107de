-- ===== src/Reconcile/Cluster/Steps.antt =====
-- reconcileCoreResources of trussiumruntime_controller.go against a store of the managed objects:
-- where it succeeds, they are the specified ones, whatever they were.
use trussium_operator.Prelude.{
  ◌≡◌, refl, sym, ap, subst, ◌∙◌, Bool, true, false, Option, none, some,
}
use trussium_operator.Kube.{NamespacedName}
use trussium_operator.Kube.Errors.{Result, ok}
use trussium_operator.Kube.Network.{NetworkPolicy}
use trussium_operator.Kube.Objects.{HorizontalPodAutoscaler}
use trussium_operator.Api.{TrussiumRuntime, RuntimeNetworkPolicySpec}
use trussium_operator.Resources.Scale.{autoscaling_enabled}
use trussium_operator.Events.{runtime_key}
use trussium_operator.Reconcile.Platform.{Platform}
use trussium_operator.Reconcile.Monad.{World, pure}
use trussium_operator.Reconcile.Mutate.{
  mutate_config_map, mutate_service_account, mutate_service, mutate_deployment,
  mutate_pod_disruption_budget, mutate_network_policy, mutate_horizontal_pod_autoscaler,
}
use trussium_operator.Reconcile.Mutate.Stable.{IsOwnership}
use trussium_operator.Reconcile.Resources.{
  enabled_policy, reconcile_config_map, reconcile_service_account, reconcile_service,
  reconcile_deployment, reconcile_pod_disruption_budget, network_policy_step,
  reconcile_network_policy, autoscaler_step, reconcile_horizontal_pod_autoscaler,
  reconcile_core_resources,
}
use trussium_operator.Reconcile.Cluster.Ensures.{Ensures, Then, step-Ensures, done-Ensures}
use trussium_operator.Reconcile.Cluster.Mutations.{
  Makes, config_map-Makes, service_account-Makes, service-Makes, deployment-Makes, budget-Makes,
  network_policy-Makes, autoscaler-Makes,
}
use trussium_operator.Reconcile.Cluster.{
  held, Managed, storing_config_map, storing_service_account, storing_service, storing_deployment,
  storing_pod_disruption_budget, storing_network_policy, storing_horizontal_pod_autoscaler, Puts,
  IsStore, ConfigMapOf, ServiceAccountOf, ServiceOf, DeploymentOf, PodDisruptionBudgetOf,
  NetworkPolicyOf, AutoscalerOf, AsSpecified,
}

module _ {p : Platform} (store : IsStore p) (owns : IsOwnership p) (r : TrussiumRuntime) where
  -- After it one object is there, with the property, and the others are as they were.
  abbrev Put : {A : Type 0} → (Managed → A → Managed) → (A → Type 0) → Managed → Managed → Type 0
  Put {A} put P x y = (b : A) × (y ≡ put x b) × P b

  Put-Ensures :
      {A : Type 0}
      (call : NamespacedName → (A → Result A) → p.Cluster → Result (Unit {0}) × p.Cluster)
      (get : Managed → Option A) (put : Managed → A → Managed) (f : A → Result A) (P : A → Type 0)
      → Puts p store.managed call get put
      → Makes owns r f P
      → (c : p.Cluster) → (call (runtime_key r) f c).0 ≡ ok tt
      → Put put P
          (store.managed (runtime_key r) c)
          (store.managed (runtime_key r) (call (runtime_key r) f c).1)
  Put-Ensures call get put f P puts makes c h =
      let (a, b, made, latest, same) = puts (runtime_key r) f c h in (b, same, makes a b made)

  -- The last two steps put an object or delete it.
  abbrev PolicyStep : Option RuntimeNetworkPolicySpec → Managed → Managed → Type 0
  PolicyStep n x y =
      (l : Option NetworkPolicy) × (y ≡ record x { network_policy = l }) × NetworkPolicyOf p r n l

  abbrev AutoscalerStep : Bool → Managed → Managed → Type 0
  AutoscalerStep b x y =
      (h : Option HorizontalPodAutoscaler) × (y ≡ record x { horizontal_pod_autoscaler = h })
      × AutoscalerOf p r b h

  policy-Ensures :
      (n : Option RuntimeNetworkPolicySpec)
      → Ensures store r (network_policy_step p r n) (PolicyStep n)
  unfolding Ensures
  policy-Ensures none w h = (none, store.network_policy_deleted (runtime_key r) w.cluster h, refl)
  policy-Ensures (some n) w h =
      let (l, same, good) =
        Put-Ensures p.create_or_update_network_policy (λ x. x.network_policy) storing_network_policy
          (mutate_network_policy p r n) _ store.network_policy_put (network_policy-Makes owns r n)
          w.cluster h in
      (some l, same, (l, refl, good))

  autoscaler-Ensures : (b : Bool) → Ensures store r (autoscaler_step p r b) (AutoscalerStep b)
  unfolding Ensures
  autoscaler-Ensures false w h = (none, store.autoscaler_deleted (runtime_key r) w.cluster h, refl)
  autoscaler-Ensures true w h =
      let (l, same, good) =
        Put-Ensures p.create_or_update_horizontal_pod_autoscaler (λ x. x.horizontal_pod_autoscaler)
          storing_horizontal_pod_autoscaler (mutate_horizontal_pod_autoscaler p r) _
          store.autoscaler_put (autoscaler-Makes owns r) w.cluster h in
      (some l, same, (l, refl, good))

  -- The objects when the seven steps have succeeded.
  abbrev SevenSteps : Managed → Managed → Type 0
  SevenSteps = Then store r (Put storing_config_map (ConfigMapOf p r)) (
      Then store r (Put storing_service_account (ServiceAccountOf p r)) (
        Then store r (Put storing_service (ServiceOf p r)) (
          Then store r (Put storing_deployment (DeploymentOf p r)) (
            Then store r (Put storing_pod_disruption_budget (PodDisruptionBudgetOf p r)) (
              Then store r (PolicyStep (enabled_policy r.spec.network_policy))
                (Then store r (AutoscalerStep (autoscaling_enabled r)) (λ x y. y ≡ x)))))))

  config_map-Ensures :
      Ensures store r (reconcile_config_map p r) (Put storing_config_map (ConfigMapOf p r))
  unfolding Ensures reconcile_config_map
  config_map-Ensures w h =
      Put-Ensures p.create_or_update_config_map (λ x. x.config_map) storing_config_map
        (mutate_config_map p r) (ConfigMapOf p r) store.config_map_put (config_map-Makes owns r)
        w.cluster h

  service_account-Ensures :
      Ensures store r
        (reconcile_service_account p r)
        (Put storing_service_account (ServiceAccountOf p r))
  unfolding Ensures reconcile_service_account
  service_account-Ensures w h =
      Put-Ensures p.create_or_update_service_account (λ x. x.service_account)
        storing_service_account (mutate_service_account p r) (ServiceAccountOf p r)
        store.service_account_put (service_account-Makes owns r) w.cluster h

  service-Ensures : Ensures store r (reconcile_service p r) (Put storing_service (ServiceOf p r))
  unfolding Ensures reconcile_service
  service-Ensures w h =
      Put-Ensures p.create_or_update_service (λ x. x.service) storing_service (mutate_service p r)
        (ServiceOf p r) store.service_put (service-Makes owns r) w.cluster h

  deployment-Ensures :
      Ensures store r (reconcile_deployment p r) (Put storing_deployment (DeploymentOf p r))
  unfolding Ensures reconcile_deployment
  deployment-Ensures w h =
      Put-Ensures p.create_or_update_deployment (λ x. x.deployment) storing_deployment
        (mutate_deployment p r) (DeploymentOf p r) store.deployment_put (deployment-Makes owns r)
        w.cluster h

  budget-Ensures :
      Ensures store r
        (reconcile_pod_disruption_budget p r)
        (Put storing_pod_disruption_budget (PodDisruptionBudgetOf p r))
  unfolding Ensures reconcile_pod_disruption_budget
  budget-Ensures w h =
      Put-Ensures p.create_or_update_pod_disruption_budget (λ x. x.pod_disruption_budget)
        storing_pod_disruption_budget (mutate_pod_disruption_budget p r) (PodDisruptionBudgetOf p r)
        store.budget_put (budget-Makes owns r) w.cluster h

  core_resources-Ensures : Ensures store r (reconcile_core_resources p r) SevenSteps
  unfolding reconcile_core_resources reconcile_network_policy reconcile_horizontal_pod_autoscaler
  core_resources-Ensures =
      step-Ensures store r (reconcile_config_map p r) _ _ _ _ config_map-Ensures (
        step-Ensures store r (reconcile_service_account p r) _ _ _ _ service_account-Ensures (
          step-Ensures store r (reconcile_service p r) _ _ _ _ service-Ensures (
            step-Ensures store r (reconcile_deployment p r) _ _ _ _ deployment-Ensures (
              step-Ensures store r (reconcile_pod_disruption_budget p r) _ _ _ _ budget-Ensures (
                step-Ensures store r
                  (network_policy_step p r (enabled_policy r.spec.network_policy)) _ _ _ _
                  (policy-Ensures (enabled_policy r.spec.network_policy))
                  (step-Ensures store r (autoscaler_step p r (autoscaling_enabled r)) _
                    (pure (ok tt)) _ _ (autoscaler-Ensures (autoscaling_enabled r))
                    (done-Ensures store r)))))))

  -- The runtime and the Secrets are not touched.
  abbrev Apart : Managed → Managed → Type 0
  Apart x z = (z.runtime ≡ x.runtime) × (z.secret ≡ x.secret)

  specified : (x z : Managed) → SevenSteps x z → AsSpecified p r z × Apart x z
  specified x z (x1, (c, e1, hc), rest1) =
      let (x2, (a, e2, ha), rest2) = rest1 in
      let (x3, (s, e3, hs), rest3) = rest2 in
      let (x4, (d, e4, hd), rest4) = rest3 in
      let (x5, (b, e5, hb), rest5) = rest4 in
      let (x6, (l, e6, hl), rest6) = rest5 in
      let (x7, (h, e7, hh), e) = rest6 in
      let put5 =
        e5
        ∙ ap (λ y. storing_pod_disruption_budget y b)
            (e4
              ∙ ap (λ y. storing_deployment y d)
                  (e3
                    ∙ ap (λ y. storing_service y s)
                        (e2 ∙ ap (λ y. storing_service_account y a) e1))) in
      let all =
        e
        ∙ (e7
            ∙ ap (λ (y : Managed). record y { horizontal_pod_autoscaler = h })
                (e6 ∙ ap (λ (y : Managed). record y { network_policy = l }) put5)) in
      subst (λ y. AsSpecified p r y × Apart x y) (sym all)
        (
          ((c, refl, hc), (a, refl, ha), (s, refl, hs), (d, refl, hd), (b, refl, hb), hl, hh),
          (refl, refl),
        )

  -- Where the seven steps succeed, the managed objects are the specified ones.
  pub core_resources-AsSpecified :
      (w : World p.Cluster)
      → (reconcile_core_resources p r w).0 ≡ ok tt
      → AsSpecified p r (held store r (reconcile_core_resources p r w).1)
  unfolding Ensures
  core_resources-AsSpecified w h =
      (specified (held store r w) (held store r (reconcile_core_resources p r w).1)
        (core_resources-Ensures w h)).0

  pub core_resources-Apart :
      (w : World p.Cluster)
      → (reconcile_core_resources p r w).0 ≡ ok tt
      → ((held store r (reconcile_core_resources p r w).1).runtime ≡ (held store r w).runtime)
        × ((held store r (reconcile_core_resources p r w).1).secret ≡ (held store r w).secret)
  unfolding Ensures
  core_resources-Apart w h =
      (specified (held store r w) (held store r (reconcile_core_resources p r w).1)
        (core_resources-Ensures w h)).1
