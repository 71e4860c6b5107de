-- ===== src/Kube/Workload.antt =====
-- appsv1.Deployment and the Pod template in it.
use trussium_operator.Prelude.{String, Bool, Option, List}
use trussium_operator.Prelude.Int.{ℤ}
use trussium_operator.Prelude.Map.{StringMap}
use trussium_operator.Kube.{ObjectMeta, LabelSelector, IntOrString, Protocol}
use trussium_operator.Kube.Condition.{ConditionStatus}

-- corev1.LocalObjectReference
pub record LocalObjectReference : Type 0 where
  pub name : String

-- corev1.Toleration
pub record Toleration : Type 0 where
  pub key : String
  pub operator : String
  pub value : String
  pub effect : String

-- corev1.Affinity, serialised.
pub record Affinity : Type 0 where
  pub text : String

-- corev1.ResourceRequirements, serialised.
pub record ResourceRequirements : Type 0 where
  pub text : String

-- corev1.SecretKeySelector
pub record SecretKeySelector : Type 0 where
  pub name : String
  pub key : String

-- corev1.EnvVar with a value taken from a Secret.
pub record EnvVar : Type 0 where
  pub name : String
  pub secret_key_ref : SecretKeySelector

pub record ContainerPort : Type 0 where
  pub name : String
  pub container_port : ℤ
  pub protocol : Protocol

-- corev1.Probe with an HTTP GET.
pub record Probe : Type 0 where
  pub path : String
  pub port : IntOrString
  pub period_seconds : ℤ
  pub timeout_seconds : ℤ
  pub failure_threshold : ℤ

-- corev1.SecurityContext
pub record SecurityContext : Type 0 where
  pub allow_privilege_escalation : Option Bool
  pub read_only_root_filesystem : Option Bool
  pub drop_capabilities : List String

-- corev1.PodSecurityContext
pub record PodSecurityContext : Type 0 where
  pub run_as_non_root : Option Bool
  pub run_as_user : Option ℤ
  pub run_as_group : Option ℤ
  pub seccomp_profile : String

pub record Container : Type 0 where
  pub name : String
  pub image : String
  pub image_pull_policy : String
  pub security_context : Option SecurityContext
  pub ports : List ContainerPort
  pub startup_probe : Option Probe
  pub liveness_probe : Option Probe
  pub readiness_probe : Option Probe
  pub env_from_config_maps : List LocalObjectReference
  pub env : List EnvVar
  pub resources : ResourceRequirements

pub record TopologySpreadConstraint : Type 0 where
  pub max_skew : ℤ
  pub topology_key : String
  pub when_unsatisfiable : String
  pub label_selector : LabelSelector

pub record PodSpec : Type 0 where
  pub service_account_name : String
  pub automount_service_account_token : Option Bool
  pub enable_service_links : Option Bool
  pub termination_grace_period_seconds : Option ℤ
  pub security_context : Option PodSecurityContext
  pub image_pull_secrets : List LocalObjectReference
  pub node_selector : StringMap
  pub tolerations : List Toleration
  pub affinity : Option Affinity
  pub topology_spread_constraints : List TopologySpreadConstraint
  pub containers : List Container

pub record PodTemplateSpec : Type 0 where
  pub labels : StringMap
  pub annotations : StringMap
  pub spec : PodSpec

-- appsv1.DeploymentStrategy with its rolling update.
pub record DeploymentStrategy : Type 0 where
  pub type : String
  pub max_unavailable : IntOrString
  pub max_surge : IntOrString

pub record DeploymentSpec : Type 0 where
  pub replicas : Option ℤ
  pub progress_deadline_seconds : Option ℤ
  pub selector : LabelSelector
  pub revision_history_limit : Option ℤ
  pub strategy : DeploymentStrategy
  pub template : PodTemplateSpec

pub record DeploymentCondition : Type 0 where
  pub type : String
  pub status : ConditionStatus
  pub reason : String
  pub message : String

pub record DeploymentStatus : Type 0 where
  pub observed_generation : ℤ
  pub replicas : ℤ
  pub updated_replicas : ℤ
  pub ready_replicas : ℤ
  pub available_replicas : ℤ
  pub unavailable_replicas : ℤ
  pub conditions : List DeploymentCondition

pub record Deployment : Type 0 where
  pub meta : ObjectMeta
  pub spec : DeploymentSpec
  pub status : DeploymentStatus

-- appsv1.DeploymentProgressing and appsv1.DeploymentReplicaFailure
abbrev pub deployment_progressing : String
deployment_progressing = "Progressing"

abbrev pub deployment_replica_failure : String
deployment_replica_failure = "ReplicaFailure"
