-- ===== src/Api.antt =====
-- api/v1alpha1/trussiumruntime_types.go: the TrussiumRuntime custom resource. The field markers that
-- the API server enforces are predicates in the child module.
pub mod Schema
use trussium_operator.Prelude.{String, Bool, Option, List}
use trussium_operator.Prelude.Int.{ℤ}
use trussium_operator.Prelude.Map.{StringMap}
use trussium_operator.Kube.{ObjectMeta, LabelSelector, ServiceType}
use trussium_operator.Kube.Condition.{Condition}
use trussium_operator.Kube.Workload.{Toleration, Affinity, ResourceRequirements}

-- A Go string type: the values that the API server admits are the two below.
abbrev pub ProviderType : Type 0
ProviderType = String

abbrev pub provider_type_openai : ProviderType
provider_type_openai = "openai"

abbrev pub provider_type_ollama : ProviderType
provider_type_ollama = "ollama"

pub record NamedReference : Type 0 where
  pub name : String

pub record SecretKeyReference : Type 0 where
  pub name : String
  pub key : String

pub record RuntimeImageSpec : Type 0 where
  pub repository : String
  pub tag : Option String
  pub digest : Option String
  pub pull_policy : String

pub record ProviderSpec : Type 0 where
  pub type : ProviderType
  pub model : String
  pub base_url : Option String
  pub credentials_secret_ref : Option SecretKeyReference

pub record RuntimeSettingsSpec : Type 0 where
  pub provider_request_timeout_seconds : Option ℤ
  pub stream_idle_timeout_seconds : Option ℤ
  pub shutdown_drain_timeout_seconds : Option ℤ

pub record RuntimeServiceSpec : Type 0 where
  pub type : ServiceType
  pub port : ℤ

pub record RuntimeNetworkPolicyIngressRule : Type 0 where
  pub namespace_selector : LabelSelector
  pub pod_selector : Option LabelSelector

pub record RuntimeNetworkPolicySpec : Type 0 where
  pub enabled : Bool
  pub ingress : List RuntimeNetworkPolicyIngressRule

pub record RuntimeAutoscalingSpec : Type 0 where
  pub enabled : Bool
  pub min_replicas : ℤ
  pub max_replicas : ℤ
  pub target_cpu_utilization_percentage : ℤ

pub record PodMetadataSpec : Type 0 where
  pub labels : StringMap
  pub annotations : StringMap

pub record SchedulingSpec : Type 0 where
  pub node_selector : StringMap
  pub tolerations : List Toleration
  pub affinity : Option Affinity

pub record TrussiumRuntimeSpec : Type 0 where
  pub image : RuntimeImageSpec
  pub replicas : Option ℤ
  pub image_pull_secrets : List NamedReference
  pub provider : ProviderSpec
  pub runtime : Option RuntimeSettingsSpec
  pub service : RuntimeServiceSpec
  pub network_policy : Option RuntimeNetworkPolicySpec
  pub autoscaling : Option RuntimeAutoscalingSpec
  pub resources : ResourceRequirements
  pub pod_metadata : Option PodMetadataSpec
  pub scheduling : Option SchedulingSpec

pub record TrussiumRuntimeStatus : Type 0 where
  pub observed_generation : ℤ
  pub ready_replicas : ℤ
  pub available_replicas : ℤ
  pub desired_image : String
  pub current_image : String
  pub last_successful_image : String
  pub endpoint : String
  pub conditions : List Condition

pub record TrussiumRuntime : Type 0 where
  pub meta : ObjectMeta
  pub spec : TrussiumRuntimeSpec
  pub status : TrussiumRuntimeStatus

-- TrussiumRuntimeList
pub record TrussiumRuntimeList : Type 0 where
  pub items : List TrussiumRuntime
