-- ===== src/Reconcile/Mutate.antt =====
-- The closures that the reconcile functions of trussiumruntime_controller.go give to
-- CreateOrUpdate: from the object as the API server has it, or an empty one, to the object to store.
pub mod Stable
pub mod Replicas
use trussium_operator.Prelude.{
  ◌≡◌, refl, String, Bool, true, false, ◌&&◌, Option, none, some, if◌then◌else◌, is_some,
}
use trussium_operator.Prelude.Int.{ℤ}
use trussium_operator.Prelude.Map.{StringMap}
use trussium_operator.Kube.{ObjectMeta}
use trussium_operator.Kube.Errors.{Error, Result, ok, err}
use trussium_operator.Kube.Workload.{Deployment}
use trussium_operator.Kube.Network.{Service, NetworkPolicy}
use trussium_operator.Kube.Objects.{
  ConfigMap, ServiceAccount, PodDisruptionBudget, HorizontalPodAutoscaler,
}
use trussium_operator.Api.{TrussiumRuntime, RuntimeNetworkPolicySpec}
use trussium_operator.Resources.Scale.{autoscaling_enabled}
use trussium_operator.Resources.Deployments.{build_deployment}
use trussium_operator.Resources.Objects.{
  build_config_map, build_service_account, build_service, build_pod_disruption_budget,
  build_network_policy, build_horizontal_pod_autoscaler,
}
use trussium_operator.Reconcile.Platform.{Platform}

-- The object with the metadata that SetControllerReference returns, or its error.
abbrev pub with_meta : {A : Type 0} → (ObjectMeta → A) → Result ObjectMeta → Result A
with_meta f (ok meta) = ok (f meta)
with_meta f (err e) = err e

pub with_meta-ok :
    {A : Type 0} (f : ObjectMeta → A) (x : Result ObjectMeta) (a : A)
    → with_meta f x ≡ ok a
    → (m : ObjectMeta) × (x ≡ ok m) × (f m ≡ a)
with_meta-ok f (ok m) a h = (m, refl, cc)
with_meta-ok f (err e) a h = cc

-- The labels are replaced by the desired ones.
abbrev pub relabelled : ObjectMeta → ObjectMeta → ObjectMeta
relabelled current desired = record current { labels = desired.labels }

-- The desired replicas, but those of the current object if the autoscaler chooses them.
abbrev pub kept_replicas : TrussiumRuntime → Option ℤ → Option ℤ → Option ℤ
kept_replicas r current desired =
    if autoscaling_enabled r && is_some current then current else desired

module _ (p : Platform) (r : TrussiumRuntime) where
  unfoldable pub mutate_config_map : ConfigMap → Result ConfigMap
  mutate_config_map current =
      let desired = build_config_map r in
      with_meta (λ meta. record { meta = meta; contents = desired.contents })
        (p.set_controller_reference r (relabelled current.meta desired.meta))

  unfoldable pub mutate_service_account : ServiceAccount → Result ServiceAccount
  mutate_service_account current =
      let desired = build_service_account r in
      with_meta
        (λ meta. record {
          meta = meta;
          automount_service_account_token = desired.automount_service_account_token;
          image_pull_secrets = desired.image_pull_secrets;
        })
        (p.set_controller_reference r (relabelled current.meta desired.meta))

  -- Of the Service's specification only three fields are written.
  unfoldable pub mutate_service : Service → Result Service
  mutate_service current =
      let desired = build_service r in
      with_meta
        (λ meta. record {
          meta = meta;
          spec = record (current.spec) {
            type = desired.spec.type;
            selector = desired.spec.selector;
            ports = desired.spec.ports;
          };
        })
        (p.set_controller_reference r (relabelled current.meta desired.meta))

  unfoldable pub mutate_deployment : Deployment → Result Deployment
  mutate_deployment current =
      let desired = build_deployment p.sha256_hex r in
      with_meta
        (λ meta. record {
          meta = meta;
          spec = record (desired.spec) {
            replicas = kept_replicas r current.spec.replicas desired.spec.replicas;
          };
          status = current.status;
        })
        (p.set_controller_reference r (relabelled current.meta desired.meta))

  unfoldable pub mutate_pod_disruption_budget : PodDisruptionBudget → Result PodDisruptionBudget
  mutate_pod_disruption_budget current =
      let desired = build_pod_disruption_budget r in
      with_meta (λ meta. record { meta = meta; spec = desired.spec })
        (p.set_controller_reference r (relabelled current.meta desired.meta))

  unfoldable pub mutate_network_policy :
      RuntimeNetworkPolicySpec → NetworkPolicy → Result NetworkPolicy
  mutate_network_policy policy current =
      let desired = build_network_policy r policy in
      with_meta (λ meta. record { meta = meta; spec = desired.spec })
        (p.set_controller_reference r (relabelled current.meta desired.meta))

  unfoldable pub mutate_horizontal_pod_autoscaler :
      HorizontalPodAutoscaler → Result HorizontalPodAutoscaler
  mutate_horizontal_pod_autoscaler current =
      let desired = build_horizontal_pod_autoscaler r in
      with_meta (λ meta. record { meta = meta; spec = desired.spec })
        (p.set_controller_reference r (relabelled current.meta desired.meta))
