-- ===== src/Resources/Objects.antt =====
-- The other builders of internal/controller/runtime_resources.go.
use trussium_operator.Prelude.{false, some, [], ◌∷◌, map}
use trussium_operator.Prelude.Int.{pos}
use trussium_operator.Kube.{from_int, from_string, tcp}
use trussium_operator.Kube.Network.{Service, NetworkPolicyIngressRule, NetworkPolicy}
use trussium_operator.Kube.Objects.{
  ConfigMap, ServiceAccount, PodDisruptionBudget, HorizontalPodAutoscaler,
}
use trussium_operator.Api.{
  RuntimeNetworkPolicyIngressRule, RuntimeNetworkPolicySpec, TrussiumRuntime,
}
use trussium_operator.Resources.Constants.{runtime_http_port_name, runtime_http_port}
use trussium_operator.Resources.Identity.{
  runtime_selector_labels, image_pull_secrets, desired_service_type,
}
use trussium_operator.Resources.Scale.{
  desired_service_port, desired_autoscaling_min_replicas, desired_autoscaling_max_replicas,
  desired_target_cpu_utilization,
}
use trussium_operator.Resources.Config.{runtime_config_data}
use trussium_operator.Resources.Deployments.{managed_meta, match_labels_only}

unfoldable pub build_config_map : TrussiumRuntime → ConfigMap
build_config_map r = record { meta = managed_meta r; contents = runtime_config_data r }

unfoldable pub build_service_account : TrussiumRuntime → ServiceAccount
build_service_account r = record {
  meta = managed_meta r;
  automount_service_account_token = some false;
  image_pull_secrets = image_pull_secrets r;
}

unfoldable pub build_service : TrussiumRuntime → Service
build_service r = record {
  meta = managed_meta r;
  spec = record {
    type = desired_service_type r;
    selector = runtime_selector_labels r;
    ports =
        record {
          name = runtime_http_port_name;
          protocol = tcp;
          port = desired_service_port r;
          target_port = from_string runtime_http_port_name;
        }
        ∷ [];
    cluster_ip = "";
  };
}

unfoldable pub build_pod_disruption_budget : TrussiumRuntime → PodDisruptionBudget
build_pod_disruption_budget r = record {
  meta = managed_meta r;
  spec = record {
    max_unavailable = some (from_int (pos 1));
    selector = match_labels_only (runtime_selector_labels r);
  };
}

-- One turn of the loop over the ingress rules.
abbrev pub ingress_rule : RuntimeNetworkPolicyIngressRule → NetworkPolicyIngressRule
ingress_rule i = record {
  from =
      record { namespace_selector = some i.namespace_selector; pod_selector = i.pod_selector } ∷ [];
  ports = record { protocol = some tcp; port = some (from_int runtime_http_port) } ∷ [];
}

-- The source reads the policy through its pointer, which its caller has tested: the policy is an
-- argument.
unfoldable pub build_network_policy : TrussiumRuntime → RuntimeNetworkPolicySpec → NetworkPolicy
build_network_policy r p = record {
  meta = managed_meta r;
  spec = record {
    pod_selector = match_labels_only (runtime_selector_labels r);
    policy_types = "Ingress" ∷ [];
    ingress = map ingress_rule p.ingress;
  };
}

unfoldable pub build_horizontal_pod_autoscaler : TrussiumRuntime → HorizontalPodAutoscaler
build_horizontal_pod_autoscaler r = record {
  meta = managed_meta r;
  spec = record {
    scale_target_ref = record { api_version = "apps/v1"; kind = "Deployment"; name = r.meta.name };
    min_replicas = some (desired_autoscaling_min_replicas r);
    max_replicas = desired_autoscaling_max_replicas r;
    metrics =
        record {
          type = "Resource";
          resource_name = "cpu";
          target_type = "Utilization";
          average_utilization = some (desired_target_cpu_utilization r);
        }
        ∷ [];
  };
}
