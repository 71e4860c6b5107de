-- ===== src/Kube/Network.antt =====
-- corev1.Service and networkingv1.NetworkPolicy.
use trussium_operator.Prelude.{String, Option, List}
use trussium_operator.Prelude.Int.{ℤ}
use trussium_operator.Prelude.Map.{StringMap}
use trussium_operator.Kube.{ObjectMeta, LabelSelector, IntOrString, Protocol, ServiceType}

pub record ServicePort : Type 0 where
  pub name : String
  pub protocol : Protocol
  pub port : ℤ
  pub target_port : IntOrString

pub record ServiceSpec : Type 0 where
  pub type : ServiceType
  pub selector : StringMap
  pub ports : List ServicePort
  pub cluster_ip : String

pub record Service : Type 0 where
  pub meta : ObjectMeta
  pub spec : ServiceSpec

pub record NetworkPolicyPeer : Type 0 where
  pub namespace_selector : Option LabelSelector
  pub pod_selector : Option LabelSelector

pub record NetworkPolicyPort : Type 0 where
  pub protocol : Option Protocol
  pub port : Option IntOrString

pub record NetworkPolicyIngressRule : Type 0 where
  pub from : List NetworkPolicyPeer
  pub ports : List NetworkPolicyPort

pub record NetworkPolicySpec : Type 0 where
  pub pod_selector : LabelSelector
  pub policy_types : List String
  pub ingress : List NetworkPolicyIngressRule

pub record NetworkPolicy : Type 0 where
  pub meta : ObjectMeta
  pub spec : NetworkPolicySpec
