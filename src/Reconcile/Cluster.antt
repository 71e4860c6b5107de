-- ===== src/Reconcile/Cluster.antt =====
-- What the cluster holds for one runtime: the seven managed objects, what the client's calls do to
-- them, and what the specification asks of them.
pub mod Mutations
pub mod Ensures
pub mod Steps
pub mod Unmoved
pub mod Kept
pub mod Answers
pub mod Status
use trussium_operator.Prelude.{◌≡◌, Bool, true, false, Option, none, some, if◌then◌else◌}
use trussium_operator.Prelude.Int.{ℤ}
use trussium_operator.Kube.{NamespacedName, ObjectMeta}
use trussium_operator.Kube.Errors.{Result, ok, err}
use trussium_operator.Kube.Workload.{Deployment}
use trussium_operator.Kube.Network.{Service, NetworkPolicy}
use trussium_operator.Kube.Objects.{
  ConfigMap, ServiceAccount, PodDisruptionBudget, HorizontalPodAutoscaler,
}
use trussium_operator.Api.{TrussiumRuntime, RuntimeNetworkPolicySpec}
use trussium_operator.Resources.Scale.{autoscaling_enabled, desired_replicas}
use trussium_operator.Resources.Deployments.{managed_meta, build_deployment}
use trussium_operator.Resources.Objects.{
  build_config_map, build_service_account, build_service, build_pod_disruption_budget,
  build_network_policy, build_horizontal_pod_autoscaler,
}
use trussium_operator.Events.{runtime_key}
use trussium_operator.Reconcile.Platform.{Platform}
use trussium_operator.Reconcile.Monad.{World}
use trussium_operator.Reconcile.Resources.{ignore_not_found, enabled_policy}

-- The objects that stand under a runtime's name, the runtime itself among them, and what the server
-- answers when it is asked for a Secret.
pub record Managed : Type 0 where
  pub config_map : Option ConfigMap
  pub service_account : Option ServiceAccount
  pub service : Option Service
  pub deployment : Option Deployment
  pub pod_disruption_budget : Option PodDisruptionBudget
  pub network_policy : Option NetworkPolicy
  pub horizontal_pod_autoscaler : Option HorizontalPodAutoscaler
  pub runtime : Option TrussiumRuntime
  pub secret : NamespacedName → Result (Unit {0})

-- The objects with one of them put.
abbrev pub storing_config_map : Managed → ConfigMap → Managed
storing_config_map x b = record x { config_map = some b }

abbrev pub storing_service_account : Managed → ServiceAccount → Managed
storing_service_account x b = record x { service_account = some b }

abbrev pub storing_service : Managed → Service → Managed
storing_service x b = record x { service = some b }

abbrev pub storing_deployment : Managed → Deployment → Managed
storing_deployment x b = record x { deployment = some b }

abbrev pub storing_pod_disruption_budget : Managed → PodDisruptionBudget → Managed
storing_pod_disruption_budget x b = record x { pod_disruption_budget = some b }

abbrev pub storing_network_policy : Managed → NetworkPolicy → Managed
storing_network_policy x b = record x { network_policy = some b }

abbrev pub storing_horizontal_pod_autoscaler : Managed → HorizontalPodAutoscaler → Managed
storing_horizontal_pod_autoscaler x b = record x { horizontal_pod_autoscaler = some b }

module _ (p : Platform) (managed : NamespacedName → p.Cluster → Managed) where
  -- CreateOrUpdate, where it succeeds, stores what the mutation makes of the object that is there, or
  -- of a new one, and nothing else.
  abbrev pub Puts :
      {A : Type 0}
      → (NamespacedName → (A → Result A) → p.Cluster → Result (Unit {0}) × p.Cluster)
      → (Managed → Option A)
      → (Managed → A → Managed)
      → Type 0
  Puts {A} call get put =
      (k : NamespacedName) (f : A → Result A) (c : p.Cluster)
      → (call k f c).0 ≡ ok tt
      → (a b : A) × (f a ≡ ok b)
        × ((x : A) → get (managed k c) ≡ some x → a ≡ x)
        × (managed k (call k f c).1 ≡ put (managed k c) b)

  -- A deletion that succeeds, or finds nothing to delete, leaves no such object.
  abbrev pub Deletes :
      (NamespacedName → p.Cluster → Result (Unit {0}) × p.Cluster) → (Managed → Managed) → Type 0
  Deletes call drop =
      (k : NamespacedName) (c : p.Cluster)
      → ignore_not_found p (call k c).0 ≡ ok tt
      → managed k (call k c).1 ≡ drop (managed k c)

-- The API server as a store of the managed objects that nobody else changes.
pub record IsStore (p : Platform) : Type 0 where
  pub managed : NamespacedName → p.Cluster → Managed
  pub config_map_put :
      Puts p managed p.create_or_update_config_map (λ x. x.config_map) storing_config_map
  pub service_account_put :
      Puts p managed p.create_or_update_service_account
        (λ x. x.service_account)
        storing_service_account
  pub service_put : Puts p managed p.create_or_update_service (λ x. x.service) storing_service
  pub deployment_put :
      Puts p managed p.create_or_update_deployment (λ x. x.deployment) storing_deployment
  pub budget_put :
      Puts p managed p.create_or_update_pod_disruption_budget
        (λ x. x.pod_disruption_budget)
        storing_pod_disruption_budget
  pub network_policy_put :
      Puts p managed p.create_or_update_network_policy
        (λ x. x.network_policy)
        storing_network_policy
  pub autoscaler_put :
      Puts p managed p.create_or_update_horizontal_pod_autoscaler
        (λ x. x.horizontal_pod_autoscaler)
        storing_horizontal_pod_autoscaler
  pub network_policy_deleted :
      Deletes p managed p.delete_network_policy (λ x. record x { network_policy = none })
  pub autoscaler_deleted :
      Deletes p managed p.delete_horizontal_pod_autoscaler
        (λ x. record x { horizontal_pod_autoscaler = none })
  pub deployment_read :
      (j k : NamespacedName) (c : p.Cluster) → managed k (p.get_deployment j c).1 ≡ managed k c
  pub service_read :
      (j k : NamespacedName) (c : p.Cluster) → managed k (p.get_service j c).1 ≡ managed k c
  pub secret_read :
      (j k : NamespacedName) (c : p.Cluster) → managed k (p.get_secret j c).1 ≡ managed k c
  pub runtime_read :
      (j k : NamespacedName) (c : p.Cluster) → managed k (p.get_runtime j c).1 ≡ managed k c
  -- The answers to reading calls say what is stored.
  pub deployment_answer :
      (k : NamespacedName) (c d : p.Cluster)
      → (managed k c).deployment ≡ (managed k d).deployment
      → (p.get_deployment k c).0 ≡ (p.get_deployment k d).0
  pub service_answer :
      (k : NamespacedName) (c d : p.Cluster)
      → (managed k c).service ≡ (managed k d).service
      → (p.get_service k c).0 ≡ (p.get_service k d).0
  pub secret_answer :
      (j k : NamespacedName) (c : p.Cluster) → (p.get_secret j c).0 ≡ (managed k c).secret j
  pub runtime_answer :
      (k : NamespacedName) (c : p.Cluster) (r : TrussiumRuntime)
      → (managed k c).runtime ≡ some r
      → (p.get_runtime k c).0 ≡ ok r
  -- An update of the status changes the runtime alone, and stores it if it succeeds.
  pub status_update :
      (r : TrussiumRuntime) (c : p.Cluster)
      → (o : Option TrussiumRuntime) × (managed (runtime_key r) (p.update_status r c).1
          ≡ record (managed (runtime_key r) c) { runtime = o })
        × ((x : TrussiumRuntime) → (p.update_status r c).0 ≡ ok x → o ≡ some r)

-- What the world's cluster holds for a runtime.
abbrev pub held : {p : Platform} → IsStore p → TrussiumRuntime → World p.Cluster → Managed
held store r w = store.managed (runtime_key r) w.cluster

-- There is an object, and it has the property.
abbrev pub Holds : {A : Type 0} → Option A → (A → Type 0) → Type 0
Holds {A} x P = (a : A) × (x ≡ some a) × P a

module _ (p : Platform) (r : TrussiumRuntime) where
  -- The labels are the managed ones, and to set the runtime as the owner changes nothing.
  abbrev pub Owned : ObjectMeta → Type 0
  Owned m = (m.labels ≡ (managed_meta r).labels) × (p.set_controller_reference r m ≡ ok m)

  abbrev pub ConfigMapOf : ConfigMap → Type 0
  ConfigMapOf c = Owned c.meta × (c.contents ≡ (build_config_map r).contents)

  abbrev pub ServiceAccountOf : ServiceAccount → Type 0
  ServiceAccountOf a =
      let desired = build_service_account r in
      Owned a.meta
      × (a.automount_service_account_token ≡ desired.automount_service_account_token)
      × (a.image_pull_secrets ≡ desired.image_pull_secrets)

  abbrev pub ServiceOf : Service → Type 0
  ServiceOf s =
      let desired = (build_service r).spec in
      Owned s.meta
      × (s.spec.type ≡ desired.type)
      × (s.spec.selector ≡ desired.selector)
      × (s.spec.ports ≡ desired.ports)

  -- The built specification, with the declared replicas unless the autoscaler chooses them.
  abbrev pub DeploymentOf : Deployment → Type 0
  DeploymentOf d =
      Owned d.meta
      × (n : ℤ) × (d.spec ≡ record ((build_deployment p.sha256_hex r).spec) { replicas = some n })
      × (autoscaling_enabled r ≡ false → n ≡ desired_replicas r)

  abbrev pub PodDisruptionBudgetOf : PodDisruptionBudget → Type 0
  PodDisruptionBudgetOf b = Owned b.meta × (b.spec ≡ (build_pod_disruption_budget r).spec)

  abbrev pub NetworkPolicyOf : Option RuntimeNetworkPolicySpec → Option NetworkPolicy → Type 0
  NetworkPolicyOf none x = x ≡ none
  NetworkPolicyOf (some n) x =
      Holds x (λ l. Owned l.meta × (l.spec ≡ (build_network_policy r n).spec))

  abbrev pub AutoscalerOf : Bool → Option HorizontalPodAutoscaler → Type 0
  AutoscalerOf false x = x ≡ none
  AutoscalerOf true x =
      Holds x (λ h. Owned h.meta × (h.spec ≡ (build_horizontal_pod_autoscaler r).spec))

  -- The managed objects are the ones that the specification asks for.
  abbrev pub AsSpecified : Managed → Type 0
  AsSpecified x =
      Holds x.config_map ConfigMapOf
      × Holds x.service_account ServiceAccountOf
      × Holds x.service ServiceOf
      × Holds x.deployment DeploymentOf
      × Holds x.pod_disruption_budget PodDisruptionBudgetOf
      × NetworkPolicyOf (enabled_policy r.spec.network_policy) x.network_policy
      × AutoscalerOf (autoscaling_enabled r) x.horizontal_pod_autoscaler
