-- ===== src/Kube.antt =====
-- The Kubernetes objects that the operator reads and writes, with the fields that its code uses.
-- A Go pointer is an Option; a nil and an empty slice or map are one list. Payloads that the code
-- only hands on (affinity, compute resources, label expressions) are kept as their serialised text.
pub mod Condition
pub mod Errors
pub mod Workload
pub mod Network
pub mod Objects
use trussium_operator.Prelude.{ℕ, String, Bool, Option, List}
use trussium_operator.Prelude.Int.{ℤ}
use trussium_operator.Prelude.Map.{StringMap}

-- types.NamespacedName
pub record NamespacedName : Type 0 where
  pub namespace : String
  pub name : String

pub record OwnerReference : Type 0 where
  pub owner : NamespacedName
  pub is_controller : Bool

-- metav1.ObjectMeta. A deletion timestamp is none where Go's is zero.
pub record ObjectMeta : Type 0 where
  pub name : String
  pub namespace : String
  pub labels : StringMap
  pub annotations : StringMap
  pub generation : ℤ
  pub deletion_timestamp : Option ℕ
  pub owner_references : List OwnerReference

-- metav1.LabelSelector
pub record LabelSelector : Type 0 where
  pub match_labels : StringMap
  pub match_expressions : List String

pub data IntOrString : Type 0 where
  from_int : ℤ → IntOrString
  from_string : String → IntOrString

pub data Protocol : Type 0 where
  tcp udp sctp : Protocol

-- corev1.ServiceType: the text of the type, empty where it is not set.
abbrev pub ServiceType : Type 0
ServiceType = String

abbrev pub service_type_cluster_ip : ServiceType
service_type_cluster_ip = "ClusterIP"
