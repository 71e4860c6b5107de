-- ===== src/Kube/Objects.antt =====
-- corev1.ConfigMap, corev1.ServiceAccount, policyv1.PodDisruptionBudget and
-- autoscalingv2.HorizontalPodAutoscaler.
use trussium_operator.Prelude.{String, Bool, Option, List}
use trussium_operator.Prelude.Int.{ℤ}
use trussium_operator.Prelude.Map.{StringMap}
use trussium_operator.Kube.{ObjectMeta, LabelSelector, IntOrString}
use trussium_operator.Kube.Workload.{LocalObjectReference}

pub record ConfigMap : Type 0 where
  pub meta : ObjectMeta
  pub contents : StringMap

pub record ServiceAccount : Type 0 where
  pub meta : ObjectMeta
  pub automount_service_account_token : Option Bool
  pub image_pull_secrets : List LocalObjectReference

pub record PodDisruptionBudgetSpec : Type 0 where
  pub max_unavailable : Option IntOrString
  pub selector : LabelSelector

pub record PodDisruptionBudget : Type 0 where
  pub meta : ObjectMeta
  pub spec : PodDisruptionBudgetSpec

-- autoscalingv2.CrossVersionObjectReference
pub record ScaleTargetRef : Type 0 where
  pub api_version : String
  pub kind : String
  pub name : String

-- autoscalingv2.MetricSpec for a resource's average utilization.
pub record MetricSpec : Type 0 where
  pub type : String
  pub resource_name : String
  pub target_type : String
  pub average_utilization : Option ℤ

pub record HorizontalPodAutoscalerSpec : Type 0 where
  pub scale_target_ref : ScaleTargetRef
  pub min_replicas : Option ℤ
  pub max_replicas : ℤ
  pub metrics : List MetricSpec

pub record HorizontalPodAutoscaler : Type 0 where
  pub meta : ObjectMeta
  pub spec : HorizontalPodAutoscalerSpec
