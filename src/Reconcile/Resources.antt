-- ===== src/Reconcile/Resources.antt =====
-- The writing steps of trussiumruntime_controller.go: one function for each kind of managed object,
-- and reconcileCoreResources over them.
pub mod Order
use trussium_operator.Prelude.{String, ◌<>◌, Bool, true, false, Option, none, some, if◌then◌else◌}
use trussium_operator.Kube.Errors.{Error, Result, ok, err}
use trussium_operator.Api.{TrussiumRuntime, RuntimeNetworkPolicySpec}
use trussium_operator.Resources.Scale.{autoscaling_enabled}
use trussium_operator.Events.{runtime_key}
use trussium_operator.Reconcile.Platform.{Platform}
use trussium_operator.Reconcile.Monad
use trussium_operator.Reconcile.Monad.{M, ◌>>=◌, pure, writing, step}
use trussium_operator.Reconcile.Mutate.{
  mutate_config_map, mutate_service_account, mutate_service, mutate_deployment,
  mutate_pod_disruption_budget, mutate_network_policy, mutate_horizontal_pod_autoscaler,
}
use trussium_operator.Reconcile.Load.{slashed}

-- An enabled policy of the specification; a nil one is not.
abbrev pub enabled_policy : Option RuntimeNetworkPolicySpec → Option RuntimeNetworkPolicySpec
enabled_policy none = none
enabled_policy (some n) = if n.enabled then some n else none

module _ (p : Platform) where
  -- client.IgnoreNotFound
  abbrev pub ignore_not_found : Result (Unit {0}) → Result (Unit {0})
  ignore_not_found (ok u) = ok u
  ignore_not_found (err e) = if p.is_not_found e then ok tt else err e

  module _ (r : TrussiumRuntime) where
    unfoldable pub reconcile_config_map : M p.Cluster (Result (Unit {0}))
    reconcile_config_map =
        writing Monad.put_config_map
          (p.create_or_update_config_map (runtime_key r) (mutate_config_map p r))

    unfoldable pub reconcile_service_account : M p.Cluster (Result (Unit {0}))
    reconcile_service_account =
        writing Monad.put_service_account
          (p.create_or_update_service_account (runtime_key r) (mutate_service_account p r))

    unfoldable pub reconcile_service : M p.Cluster (Result (Unit {0}))
    reconcile_service =
        writing Monad.put_service (p.create_or_update_service (runtime_key r) (mutate_service p r))

    unfoldable pub reconcile_deployment : M p.Cluster (Result (Unit {0}))
    reconcile_deployment =
        writing Monad.put_deployment
          (p.create_or_update_deployment (runtime_key r) (mutate_deployment p r))

    unfoldable pub reconcile_pod_disruption_budget : M p.Cluster (Result (Unit {0}))
    reconcile_pod_disruption_budget = writing Monad.put_pod_disruption_budget (
        p.create_or_update_pod_disruption_budget (runtime_key r) (mutate_pod_disruption_budget p r))

    abbrev pub network_policy_step :
        Option RuntimeNetworkPolicySpec → M p.Cluster (Result (Unit {0}))
    network_policy_step none = do
      result ← writing Monad.delete_network_policy (p.delete_network_policy (runtime_key r))
      pure (ignore_not_found result)
    network_policy_step (some n) =
        writing Monad.put_network_policy
          (p.create_or_update_network_policy (runtime_key r) (mutate_network_policy p r n))

    unfoldable pub reconcile_network_policy : M p.Cluster (Result (Unit {0}))
    reconcile_network_policy = network_policy_step (enabled_policy r.spec.network_policy)

    abbrev pub autoscaler_step : Bool → M p.Cluster (Result (Unit {0}))
    autoscaler_step false = do
      result ←
          writing Monad.delete_horizontal_pod_autoscaler
            (p.delete_horizontal_pod_autoscaler (runtime_key r))
      pure (ignore_not_found result)
    autoscaler_step true = writing Monad.put_horizontal_pod_autoscaler (
        p.create_or_update_horizontal_pod_autoscaler (runtime_key r)
          (mutate_horizontal_pod_autoscaler p r))

    unfoldable pub reconcile_horizontal_pod_autoscaler : M p.Cluster (Result (Unit {0}))
    reconcile_horizontal_pod_autoscaler = autoscaler_step (autoscaling_enabled r)

    -- The text before the error of one kind.
    abbrev pub context : String → String
    context kind = "reconcile " <> kind <> " " <> slashed (runtime_key r)

    unfoldable pub reconcile_core_resources : M p.Cluster (Result (Unit {0}))
    reconcile_core_resources = step reconcile_config_map (context "ConfigMap") (
        step reconcile_service_account (context "ServiceAccount") (
          step reconcile_service (context "Service") (
            step reconcile_deployment (context "Deployment") (
              step reconcile_pod_disruption_budget (context "PodDisruptionBudget") (
                step reconcile_network_policy (context "NetworkPolicy") (
                  step reconcile_horizontal_pod_autoscaler (context "HorizontalPodAutoscaler")
                    (pure (ok tt))))))))
