-- ===== src/Reconcile/Cluster/Unmoved.antt =====
-- The closures given to CreateOrUpdate leave an object that is as specified.
use trussium_operator.Prelude.{◌≡◌, refl, sym, ap, ◌∙◌, false, some, Bool-cases, inl, inr}
use trussium_operator.Prelude.Int.{ℤ}
use trussium_operator.Kube.{ObjectMeta}
use trussium_operator.Kube.Errors.{Result, ok}
use trussium_operator.Kube.Workload.{DeploymentSpec}
use trussium_operator.Api.{TrussiumRuntime, RuntimeNetworkPolicySpec}
use trussium_operator.Resources.Scale.{
  autoscaling_enabled, desired_replicas, initial_deployment_replicas,
}
use trussium_operator.Resources.Deployments.{managed_meta, build_deployment}
use trussium_operator.Resources.Objects.{
  build_config_map, build_service_account, build_service, build_pod_disruption_budget,
  build_network_policy, build_horizontal_pod_autoscaler,
}
use trussium_operator.Reconcile.Platform.{Platform}
use trussium_operator.Reconcile.Mutate.{
  with_meta, relabelled, kept_replicas, mutate_config_map, mutate_service_account, mutate_service,
  mutate_deployment, mutate_pod_disruption_budget, mutate_network_policy,
  mutate_horizontal_pod_autoscaler,
}
use trussium_operator.Reconcile.Cluster.{
  Owned, ConfigMapOf, ServiceAccountOf, ServiceOf, DeploymentOf, PodDisruptionBudgetOf,
}

module _ (p : Platform) (r : TrussiumRuntime) where
  -- To set the labels and the owner again changes nothing.
  meta-again :
      (m desired : ObjectMeta)
      → desired ≡ managed_meta r
      → Owned p r m
      → p.set_controller_reference r (relabelled m desired) ≡ ok m
  meta-again m desired e (labels, owner) =
      ap (λ l. p.set_controller_reference r (record m { labels = l }))
        (ap (λ (d : ObjectMeta). d.labels) e ∙ sym labels)
      ∙ owner

  -- A mutation leaves the object.
  abbrev pub Leaves : {A : Type 0} → (A → Result A) → (A → Type 0) → Type 0
  Leaves {A} f P = (a : A) → P a → f a ≡ ok a

  with_meta-Leaves :
      {A : Type 0} (meta_of : A → ObjectMeta) (write : A → ObjectMeta → A) (desired : ObjectMeta)
      (P : A → Type 0)
      → desired ≡ managed_meta r
      → ((a : A) → P a → Owned p r (meta_of a))
      → ((a : A) → P a → write a (meta_of a) ≡ a)
      → Leaves
          (λ a. with_meta (write a) (p.set_controller_reference r (relabelled (meta_of a) desired)))
          P
  with_meta-Leaves meta_of write desired P e owner same a h =
      ap (with_meta (write a)) (meta-again (meta_of a) desired e (owner a h)) ∙ ap ok (same a h)

  pub config_map-Leaves : Leaves (mutate_config_map p r) (ConfigMapOf p r)
  unfolding mutate_config_map build_config_map
  config_map-Leaves =
      with_meta-Leaves (λ a. a.meta) _ (managed_meta r) (ConfigMapOf p r) refl (λ a h. h.0)
        (λ a h. ap (λ x. record a { contents = x }) (sym h.1))

  pub service_account-Leaves : Leaves (mutate_service_account p r) (ServiceAccountOf p r)
  unfolding mutate_service_account build_service_account
  service_account-Leaves =
      with_meta-Leaves (λ a. a.meta) _ (managed_meta r) (ServiceAccountOf p r) refl (λ a h. h.0)
        (λ a (o, token, pulls).
          ap
            (λ x. record a {
              automount_service_account_token = x;
              image_pull_secrets = (build_service_account r).image_pull_secrets;
            })
            (sym token)
          ∙ ap (λ x. record a { image_pull_secrets = x }) (sym pulls))

  pub service-Leaves : Leaves (mutate_service p r) (ServiceOf p r)
  unfolding mutate_service build_service
  service-Leaves =
      with_meta-Leaves (λ a. a.meta) _ (managed_meta r) (ServiceOf p r) refl (λ a h. h.0)
        (λ a (o, type, selector, ports).
          let desired = (build_service r).spec in
          ap
            (λ x. record a {
              spec = record (a.spec) {
                type = x;
                selector = desired.selector;
                ports = desired.ports;
              };
            })
            (sym type)
          ∙ (ap (λ x. record a { spec = record (a.spec) { selector = x; ports = desired.ports } })
                (sym selector)
              ∙ ap (λ x. record a { spec = record (a.spec) { ports = x } }) (sym ports)))

  replicas-kept :
      (n : ℤ)
      → (autoscaling_enabled r ≡ false → n ≡ desired_replicas r)
      → kept_replicas r (some n) (some (initial_deployment_replicas r)) ≡ some n
  unfolding initial_deployment_replicas
  replicas-kept n off = elim (Bool-cases (autoscaling_enabled r)) [
    | inl e ↦ rw e
    | inr e ↦ rw e (ap some (sym (off e)))
  ]

  pub deployment-Leaves : Leaves (mutate_deployment p r) (DeploymentOf p r)
  unfolding mutate_deployment build_deployment
  deployment-Leaves =
      with_meta-Leaves (λ a. a.meta) _ (managed_meta r) (DeploymentOf p r) refl (λ a h. h.0)
        (λ a (o, n, spec, off).
          let built = (build_deployment p.sha256_hex r).spec in
          ap
            (λ x. record a {
              spec = record built {
                replicas = kept_replicas r x (some (initial_deployment_replicas r));
              };
            })
            (ap (λ (d : DeploymentSpec). d.replicas) spec)
          ∙ (ap (λ x. record a { spec = record built { replicas = x } }) (replicas-kept n off)
              ∙ ap (λ x. record a { spec = x }) (sym spec)))

  pub budget-Leaves : Leaves (mutate_pod_disruption_budget p r) (PodDisruptionBudgetOf p r)
  unfolding mutate_pod_disruption_budget build_pod_disruption_budget
  budget-Leaves =
      with_meta-Leaves (λ a. a.meta) _ (managed_meta r) (PodDisruptionBudgetOf p r) refl
        (λ a h. h.0) (λ a h. ap (λ x. record a { spec = x }) (sym h.1))

  pub network_policy-Leaves :
      (n : RuntimeNetworkPolicySpec)
      → Leaves
          (mutate_network_policy p r n)
          (λ l. Owned p r l.meta × (l.spec ≡ (build_network_policy r n).spec))
  unfolding mutate_network_policy build_network_policy
  network_policy-Leaves n =
      with_meta-Leaves (λ a. a.meta) _ (managed_meta r) _ refl (λ a h. h.0)
        (λ a h. ap (λ x. record a { spec = x }) (sym h.1))

  pub autoscaler-Leaves :
      Leaves
        (mutate_horizontal_pod_autoscaler p r)
        (λ h. Owned p r h.meta × (h.spec ≡ (build_horizontal_pod_autoscaler r).spec))
  unfolding mutate_horizontal_pod_autoscaler build_horizontal_pod_autoscaler
  autoscaler-Leaves =
      with_meta-Leaves (λ a. a.meta) _ (managed_meta r) _ refl (λ a h. h.0)
        (λ a h. ap (λ x. record a { spec = x }) (sym h.1))
