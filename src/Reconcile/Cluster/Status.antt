-- ===== src/Reconcile/Cluster/Status.antt =====
-- What the specification asks for does not depend on the runtime's status.
use trussium_operator.Prelude.{◌≡◌, refl, ◌∙◌, Bool, true, false, Option, none, some}
use trussium_operator.Kube.{ObjectMeta}
use trussium_operator.Api.{TrussiumRuntime, TrussiumRuntimeStatus, RuntimeNetworkPolicySpec}
use trussium_operator.Kube.Network.{NetworkPolicy}
use trussium_operator.Kube.Objects.{HorizontalPodAutoscaler}
use trussium_operator.Resources.Identity.{
  runtime_labels, runtime_selector_labels, merged_pod_labels, image_pull_secrets,
  runtime_node_selector, runtime_tolerations, runtime_affinity, provider_credential_env,
  desired_service_type,
}
use trussium_operator.Resources.Config.{pod_annotations, runtime_config_data}
use trussium_operator.Resources.Scale.{
  initial_deployment_replicas, termination_grace_period_seconds, autoscaling_enabled,
  desired_autoscaling_min_replicas, desired_replicas, desired_autoscaling_max_replicas,
  desired_target_cpu_utilization, desired_service_port,
}
use trussium_operator.Resources.Deployments.{build_deployment}
use trussium_operator.Resources.Objects.{
  build_config_map, build_service_account, build_service, build_pod_disruption_budget,
  build_network_policy, build_horizontal_pod_autoscaler,
}
use trussium_operator.Reconcile.Platform.{Platform}
use trussium_operator.Reconcile.Update.{with_status}
use trussium_operator.Reconcile.Resources.{enabled_policy}
use trussium_operator.Reconcile.Resources.Order.{plan}
use trussium_operator.Reconcile.Cluster.{Managed, Owned, NetworkPolicyOf, AutoscalerOf, AsSpecified}

-- An owner reference does not depend on the owner's status.
abbrev pub OwnsByName : Platform → Type 0
OwnsByName p =
    (r : TrussiumRuntime) (s : TrussiumRuntimeStatus) (m : ObjectMeta)
    → p.set_controller_reference (with_status r s) m ≡ p.set_controller_reference r m

pub plan-status :
    (r : TrussiumRuntime) (s : TrussiumRuntimeStatus) → plan (with_status r s) ≡ plan r
unfolding autoscaling_enabled
plan-status r s = refl

module _ (p : Platform) (named : OwnsByName p) (r : TrussiumRuntime)
    (s : TrussiumRuntimeStatus) where
  Owned-status : (m : ObjectMeta) → Owned p r m → Owned p (with_status r s) m
  unfolding runtime_labels
  Owned-status m (labels, owner) = (labels, named r s m ∙ owner)

  policy-status :
      (n : Option RuntimeNetworkPolicySpec) (x : Option NetworkPolicy)
      → NetworkPolicyOf p r n x
      → NetworkPolicyOf p (with_status r s) n x
  unfolding build_network_policy runtime_selector_labels
  policy-status none x h = h
  policy-status (some n) x (l, there, (owned, spec)) = (l, there, (Owned-status l.meta owned, spec))

  autoscaler-status :
      (b : Bool) (x : Option HorizontalPodAutoscaler)
      → AutoscalerOf p r b x
      → AutoscalerOf p (with_status r s) b x
  unfolding build_horizontal_pod_autoscaler desired_autoscaling_min_replicas
      desired_autoscaling_max_replicas desired_target_cpu_utilization
  autoscaler-status false x h = h
  autoscaler-status true x (l, there, (owned, spec)) = (l, there, (Owned-status l.meta owned, spec))

  -- Objects that are as specified are so for the runtime with another status.
  pub AsSpecified-status : (x : Managed) → AsSpecified p r x → AsSpecified p (with_status r s) x
  unfolding build_config_map build_service_account build_service build_deployment
      build_pod_disruption_budget runtime_labels initial_deployment_replicas runtime_selector_labels
      merged_pod_labels pod_annotations termination_grace_period_seconds image_pull_secrets
      runtime_node_selector runtime_tolerations runtime_affinity provider_credential_env
      autoscaling_enabled desired_autoscaling_min_replicas desired_replicas runtime_config_data
      desired_service_type desired_service_port
  AsSpecified-status x
        (
          (c, tc, (oc, hc)),
          (a, ta, (oa, ka, ia)),
          (v, tv, (ov, yv, sv, pv)),
          (d, td, (od, n, sd, fd)),
          (b, tb, (ob, hb)),
          l,
          h,
        ) =
      (
        (c, tc, (Owned-status c.meta oc, hc)),
        (a, ta, (Owned-status a.meta oa, ka, ia)),
        (v, tv, (Owned-status v.meta ov, yv, sv, pv)),
        (d, td, (Owned-status d.meta od, n, sd, fd)),
        (b, tb, (Owned-status b.meta ob, hb)),
        policy-status (enabled_policy r.spec.network_policy) x.network_policy l,
        autoscaler-status (autoscaling_enabled r) x.horizontal_pod_autoscaler h,
      )
