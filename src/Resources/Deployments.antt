-- ===== src/Resources/Deployments.antt =====
-- buildDeployment of internal/controller/runtime_resources.go.
use trussium_operator.Prelude.{String, true, false, none, some, [], ◌∷◌}
use trussium_operator.Prelude.Int.{pos}
use trussium_operator.Prelude.Map.{StringMap}
use trussium_operator.Kube.{ObjectMeta, LabelSelector, from_int, from_string, tcp}
use trussium_operator.Kube.Workload.{Container, PodSpec, DeploymentStatus, Deployment}
use trussium_operator.Api.{TrussiumRuntime}
use trussium_operator.Resources.Constants.{
  runtime_container_name, runtime_http_port_name, runtime_http_port, runtime_user_id,
  runtime_group_id, deployment_revision_history_limit, deployment_progress_deadline_seconds,
  topology_hostname_key, health_live_path, health_ready_path,
}
use trussium_operator.Resources.Identity.{
  runtime_labels, runtime_selector_labels, merged_pod_labels, runtime_image, image_pull_secrets,
  runtime_node_selector, runtime_tolerations, runtime_affinity, provider_credential_env,
}
use trussium_operator.Resources.Scale.{
  initial_deployment_replicas, termination_grace_period_seconds,
}
use trussium_operator.Resources.Config.{pod_annotations}

-- metav1.ObjectMeta{Name, Namespace, Labels}, which every builder writes.
abbrev pub managed_meta : TrussiumRuntime → ObjectMeta
managed_meta r = record {
  name = r.meta.name;
  namespace = r.meta.namespace;
  labels = runtime_labels r;
  annotations = [];
  generation = pos 0;
  deletion_timestamp = none;
  owner_references = [];
}

abbrev pub match_labels_only : StringMap → LabelSelector
match_labels_only labels = record { match_labels = labels; match_expressions = [] }

-- A Deployment that has no status yet.
abbrev pub empty_deployment_status : DeploymentStatus
empty_deployment_status = record {
  observed_generation = pos 0;
  replicas = pos 0;
  updated_replicas = pos 0;
  ready_replicas = pos 0;
  available_replicas = pos 0;
  unavailable_replicas = pos 0;
  conditions = [];
}

abbrev runtime_container : TrussiumRuntime → Container
runtime_container r = record {
  name = runtime_container_name;
  image = runtime_image r.spec.image;
  image_pull_policy = r.spec.image.pull_policy;
  security_context = some (record {
    allow_privilege_escalation = some false;
    read_only_root_filesystem = some true;
    drop_capabilities = "ALL" ∷ [];
  });
  ports =
      record { name = runtime_http_port_name; container_port = runtime_http_port; protocol = tcp }
      ∷ [];
  startup_probe = some (record {
    path = health_live_path;
    port = from_string runtime_http_port_name;
    period_seconds = pos 2;
    timeout_seconds = pos 1;
    failure_threshold = pos 30;
  });
  liveness_probe = some (record {
    path = health_live_path;
    port = from_string runtime_http_port_name;
    period_seconds = pos 10;
    timeout_seconds = pos 2;
    failure_threshold = pos 3;
  });
  readiness_probe = some (record {
    path = health_ready_path;
    port = from_string runtime_http_port_name;
    period_seconds = pos 5;
    timeout_seconds = pos 2;
    failure_threshold = pos 3;
  });
  env_from_config_maps = record { name = r.meta.name } ∷ [];
  env = provider_credential_env r;
  resources = r.spec.resources;
}

abbrev runtime_pod_spec : TrussiumRuntime → PodSpec
runtime_pod_spec r = record {
  service_account_name = r.meta.name;
  automount_service_account_token = some false;
  enable_service_links = some false;
  termination_grace_period_seconds = some (termination_grace_period_seconds r);
  security_context = some (record {
    run_as_non_root = some true;
    run_as_user = some runtime_user_id;
    run_as_group = some runtime_group_id;
    seccomp_profile = "RuntimeDefault";
  });
  image_pull_secrets = image_pull_secrets r;
  node_selector = runtime_node_selector r;
  tolerations = runtime_tolerations r;
  affinity = runtime_affinity r;
  topology_spread_constraints =
      record {
        max_skew = pos 1;
        topology_key = topology_hostname_key;
        when_unsatisfiable = "ScheduleAnyway";
        label_selector = match_labels_only (runtime_selector_labels r);
      }
      ∷ [];
  containers = runtime_container r ∷ [];
}

module _ (sha256_hex : String → String) where
  unfoldable pub build_deployment : TrussiumRuntime → Deployment
  build_deployment r = record {
    meta = managed_meta r;
    spec = record {
      replicas = some (initial_deployment_replicas r);
      progress_deadline_seconds = some deployment_progress_deadline_seconds;
      selector = match_labels_only (runtime_selector_labels r);
      revision_history_limit = some deployment_revision_history_limit;
      strategy = record {
        type = "RollingUpdate";
        max_unavailable = from_int (pos 0);
        max_surge = from_int (pos 1);
      };
      template = record {
        labels = merged_pod_labels r;
        annotations = pod_annotations sha256_hex r;
        spec = runtime_pod_spec r;
      };
    };
    status = empty_deployment_status;
  }
