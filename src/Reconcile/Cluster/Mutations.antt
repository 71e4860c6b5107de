-- ===== src/Reconcile/Cluster/Mutations.antt =====
-- The closures given to CreateOrUpdate make a specified object of any object.
use trussium_operator.Prelude.{◌≡◌, refl, ap, subst, ◌∙◌, false, Option, none, some}
use trussium_operator.Prelude.Int.{ℤ}
use trussium_operator.Kube.{ObjectMeta}
use trussium_operator.Kube.Errors.{Result, ok}
use trussium_operator.Api.{TrussiumRuntime, RuntimeNetworkPolicySpec}
use trussium_operator.Resources.Scale.{autoscaling_enabled, desired_replicas}
use trussium_operator.Resources.Deployments.{managed_meta, build_deployment}
use trussium_operator.Resources.Objects.{
  build_config_map, build_service_account, build_service, build_pod_disruption_budget,
  build_network_policy, build_horizontal_pod_autoscaler,
}
use trussium_operator.Reconcile.Platform.{Platform}
use trussium_operator.Reconcile.Mutate.{
  with_meta, with_meta-ok, relabelled, mutate_config_map, mutate_service_account, mutate_service,
  mutate_deployment, mutate_pod_disruption_budget, mutate_network_policy,
  mutate_horizontal_pod_autoscaler,
}
use trussium_operator.Reconcile.Mutate.Stable.{IsOwnership}
use trussium_operator.Reconcile.Mutate.Replicas.{replicas_after, stored-replicas}
use trussium_operator.Reconcile.Cluster.{
  Owned, ConfigMapOf, ServiceAccountOf, ServiceOf, DeploymentOf, PodDisruptionBudgetOf,
}

module _ {p : Platform} (owns : IsOwnership p) (r : TrussiumRuntime) where
  -- An object with the owner's metadata is owned.
  owned :
      (current desired m : ObjectMeta)
      → desired ≡ managed_meta r
      → p.set_controller_reference r (relabelled current desired) ≡ ok m
      → Owned p r m
  owned current desired m e h = (
    owns.keeps_labels r (relabelled current desired) m h ∙ ap (λ d. d.labels) e,
    owns.again r (relabelled current desired) m h,
  )

  -- A mutation makes a specified object of any.
  abbrev pub Makes : {A : Type 0} → (A → Result A) → (A → Type 0) → Type 0
  Makes {A} f P = (a b : A) → f a ≡ ok b → P b

  with_meta-Makes :
      {A : Type 0} (meta_of : A → ObjectMeta) (write : A → ObjectMeta → A) (desired : ObjectMeta)
      (P : A → Type 0)
      → desired ≡ managed_meta r
      → ((a : A) (m : ObjectMeta) → Owned p r m → P (write a m))
      → Makes
          (λ a. with_meta (write a) (p.set_controller_reference r (relabelled (meta_of a) desired)))
          P
  with_meta-Makes meta_of write desired P e good a b h =
      let (m, set, same) = with_meta-ok (write a) _ b h in
      subst P same (good a m (owned (meta_of a) desired m e set))

  pub config_map-Makes : Makes (mutate_config_map p r) (ConfigMapOf p r)
  unfolding mutate_config_map build_config_map
  config_map-Makes =
      with_meta-Makes (λ a. a.meta) _ (managed_meta r) (ConfigMapOf p r) refl (λ a m o. (o, refl))

  pub service_account-Makes : Makes (mutate_service_account p r) (ServiceAccountOf p r)
  unfolding mutate_service_account build_service_account
  service_account-Makes =
      with_meta-Makes (λ a. a.meta) _ (managed_meta r) (ServiceAccountOf p r) refl
        (λ a m o. (o, refl, refl))

  pub service-Makes : Makes (mutate_service p r) (ServiceOf p r)
  unfolding mutate_service build_service
  service-Makes =
      with_meta-Makes (λ a. a.meta) _ (managed_meta r) (ServiceOf p r) refl
        (λ a m o. (o, refl, refl, refl))

  declared :
      (current : Option ℤ)
      → autoscaling_enabled r ≡ false
      → replicas_after r current ≡ desired_replicas r
  declared none off = rw off
  declared (some n) off = rw off

  pub deployment-Makes : Makes (mutate_deployment p r) (DeploymentOf p r)
  unfolding mutate_deployment build_deployment
  deployment-Makes =
      with_meta-Makes (λ a. a.meta) _ (managed_meta r) (DeploymentOf p r) refl
        (λ a m o. (
          o,
          replicas_after r a.spec.replicas,
          ap (λ x. record ((build_deployment p.sha256_hex r).spec) { replicas = x })
              (stored-replicas p r a.spec.replicas),
          declared a.spec.replicas,
        ))

  pub budget-Makes : Makes (mutate_pod_disruption_budget p r) (PodDisruptionBudgetOf p r)
  unfolding mutate_pod_disruption_budget build_pod_disruption_budget
  budget-Makes =
      with_meta-Makes (λ a. a.meta) _ (managed_meta r) (PodDisruptionBudgetOf p r) refl
        (λ a m o. (o, refl))

  pub network_policy-Makes :
      (n : RuntimeNetworkPolicySpec)
      → Makes
          (mutate_network_policy p r n)
          (λ l. Owned p r l.meta × (l.spec ≡ (build_network_policy r n).spec))
  unfolding mutate_network_policy build_network_policy
  network_policy-Makes n =
      with_meta-Makes (λ a. a.meta) _ (managed_meta r) _ refl (λ a m o. (o, refl))

  pub autoscaler-Makes :
      Makes
        (mutate_horizontal_pod_autoscaler p r)
        (λ h. Owned p r h.meta × (h.spec ≡ (build_horizontal_pod_autoscaler r).spec))
  unfolding mutate_horizontal_pod_autoscaler build_horizontal_pod_autoscaler
  autoscaler-Makes = with_meta-Makes (λ a. a.meta) _ (managed_meta r) _ refl (λ a m o. (o, refl))
