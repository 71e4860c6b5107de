-- ===== src/Reconcile/Platform.antt =====
-- What the operator calls and does not implement: the controller-runtime client with
-- controllerutil, apimachinery's errors, conditions and semantic equality, the digest, the clock and
-- the Event recorder. Every call of the client takes the cluster's state and returns the state after
-- it, in which others may have acted too.
use trussium_operator.Prelude.{ℕ, String, Bool}
use trussium_operator.Kube.{NamespacedName, ObjectMeta}
use trussium_operator.Kube.Condition.{ConditionApi}
use trussium_operator.Kube.Errors.{Error, Result}
use trussium_operator.Kube.Workload.{Deployment}
use trussium_operator.Kube.Network.{Service, NetworkPolicy}
use trussium_operator.Kube.Objects.{
  ConfigMap, ServiceAccount, PodDisruptionBudget, HorizontalPodAutoscaler,
}
use trussium_operator.Api.{TrussiumRuntime, TrussiumRuntimeList, TrussiumRuntimeStatus}

pub record Platform : Type 1 where
  pub Cluster : Type 0
  -- apierrors.IsNotFound
  pub is_not_found : Error → Bool
  -- equality.Semantic.DeepEqual on two statuses
  pub deep_equal : TrussiumRuntimeStatus → TrussiumRuntimeStatus → Bool
  pub conditions : ConditionApi
  -- sha256.Sum256 in hexadecimal
  pub sha256_hex : String → String
  -- the instant of the reconciliation
  pub now : ℕ
  -- is there an Event recorder?
  pub recorder : Bool
  -- controllerutil.SetControllerReference on an object's metadata
  pub set_controller_reference : TrussiumRuntime → ObjectMeta → Result ObjectMeta
  pub get_runtime : NamespacedName → Cluster → Result TrussiumRuntime × Cluster
  -- The values of a Secret are not read.
  pub get_secret : NamespacedName → Cluster → Result (Unit {0}) × Cluster
  pub get_deployment : NamespacedName → Cluster → Result Deployment × Cluster
  pub get_service : NamespacedName → Cluster → Result Service × Cluster
  pub list_runtimes : String → Cluster → Result TrussiumRuntimeList × Cluster
  -- Status().Update: on success the object as the server returns it
  pub update_status : TrussiumRuntime → Cluster → Result TrussiumRuntime × Cluster
  -- controllerutil.CreateOrUpdate, for each kind of object
  pub create_or_update_config_map :
      NamespacedName → (ConfigMap → Result ConfigMap) → Cluster → Result (Unit {0}) × Cluster
  pub create_or_update_service_account :
      NamespacedName
      → (ServiceAccount → Result ServiceAccount)
      → Cluster
      → Result (Unit {0}) × Cluster
  pub create_or_update_service :
      NamespacedName → (Service → Result Service) → Cluster → Result (Unit {0}) × Cluster
  pub create_or_update_deployment :
      NamespacedName → (Deployment → Result Deployment) → Cluster → Result (Unit {0}) × Cluster
  pub create_or_update_pod_disruption_budget :
      NamespacedName
      → (PodDisruptionBudget → Result PodDisruptionBudget)
      → Cluster
      → Result (Unit {0}) × Cluster
  pub create_or_update_network_policy :
      NamespacedName
      → (NetworkPolicy → Result NetworkPolicy)
      → Cluster
      → Result (Unit {0}) × Cluster
  pub create_or_update_horizontal_pod_autoscaler :
      NamespacedName
      → (HorizontalPodAutoscaler → Result HorizontalPodAutoscaler)
      → Cluster
      → Result (Unit {0}) × Cluster
  pub delete_network_policy : NamespacedName → Cluster → Result (Unit {0}) × Cluster
  pub delete_horizontal_pod_autoscaler : NamespacedName → Cluster → Result (Unit {0}) × Cluster
