-- ===== src/Tests/Fixtures.antt =====
-- A runtime that is being upgraded, and Deployments for it.
use trussium_operator.Prelude.{String, true, false, none, some, List, [], ◌∷◌}
use trussium_operator.Prelude.Int.{ℤ, pos}
use trussium_operator.Kube.{ObjectMeta, service_type_cluster_ip}
use trussium_operator.Kube.Condition.{Condition, cond_true, cond_false}
use trussium_operator.Kube.Errors.{Error, api}
use trussium_operator.Kube.Workload.{Deployment, DeploymentStatus, DeploymentCondition}
use trussium_operator.Api.{
  TrussiumRuntime, TrussiumRuntimeSpec, TrussiumRuntimeStatus, RuntimeAutoscalingSpec,
  RuntimeNetworkPolicySpec, RuntimeSettingsSpec, PodMetadataSpec,
}
use trussium_operator.Resources.Deployments.{build_deployment}
use trussium_operator.Resources.Objects.{build_service}
use trussium_operator.Status.References.{ReferenceValidationResult}
use trussium_operator.Status.Rollout.{RuntimeObservation}

abbrev pub demo_meta : ObjectMeta
demo_meta = record {
  name = "demo";
  namespace = "ai";
  labels = [];
  annotations = [];
  generation = pos 3;
  deletion_timestamp = none;
  owner_references = [];
}

abbrev pub demo_network_policy : RuntimeNetworkPolicySpec
demo_network_policy = record {
  enabled = true;
  ingress =
      record {
        namespace_selector = record { match_labels = ("team", "ai") ∷ []; match_expressions = [] };
        pod_selector = none;
      }
      ∷ [];
}

abbrev pub demo_autoscaling : RuntimeAutoscalingSpec
demo_autoscaling = record {
  enabled = true;
  min_replicas = pos 2;
  max_replicas = pos 5;
  target_cpu_utilization_percentage = pos 80;
}

abbrev pub demo_settings : RuntimeSettingsSpec
demo_settings = record {
  provider_request_timeout_seconds = some (pos 60);
  stream_idle_timeout_seconds = none;
  shutdown_drain_timeout_seconds = some (pos 30);
}

abbrev pub demo_pod_metadata : PodMetadataSpec
demo_pod_metadata = record {
  labels = ("team", "ai") ∷ ("app.kubernetes.io/name", "mine") ∷ [];
  annotations = ("note", "x") ∷ ("runtime.trussium.io/config-checksum", "forged") ∷ [];
}

abbrev pub demo_spec : TrussiumRuntimeSpec
demo_spec = record {
  image = record {
    repository = "ghcr.io/trussiumhq/trussium";
    tag = some "v2";
    digest = none;
    pull_policy = "IfNotPresent";
  };
  replicas = some (pos 2);
  image_pull_secrets = record { name = "registry" } ∷ [];
  provider = record {
    type = "openai";
    model = "gpt-5";
    base_url = none;
    credentials_secret_ref = some (record { name = "openai"; key = "key" });
  };
  runtime = some demo_settings;
  service = record { type = service_type_cluster_ip; port = pos 9000 };
  network_policy = some demo_network_policy;
  autoscaling = none;
  resources = record { text = "" };
  pod_metadata = some demo_pod_metadata;
  scheduling = none;
}

abbrev pub upgrading : Condition
upgrading = record {
  type = "Upgrading";
  status = cond_true;
  observed_generation = pos 2;
  last_transition_time = 50;
  reason = "UpgradeInProgress";
  message = "Runtime image is upgrading.";
}

abbrev pub demo_status : TrussiumRuntimeStatus
demo_status = record {
  observed_generation = pos 2;
  ready_replicas = pos 2;
  available_replicas = pos 2;
  desired_image = "ghcr.io/trussiumhq/trussium:v1";
  current_image = "ghcr.io/trussiumhq/trussium:v1";
  last_successful_image = "ghcr.io/trussiumhq/trussium:v1";
  endpoint = "";
  conditions = upgrading ∷ [];
}

abbrev pub demo : TrussiumRuntime
demo = record { meta = demo_meta; spec = demo_spec; status = demo_status }

abbrev pub autoscaled_demo : TrussiumRuntime
autoscaled_demo = record demo { spec = record demo_spec { autoscaling = some demo_autoscaling } }

-- The digest of the tests.
abbrev pub plain_digest : String → String
plain_digest s = s

abbrev pub status_of : ℤ → ℤ → List DeploymentCondition → DeploymentStatus
status_of updated ready conditions = record {
  observed_generation = pos 3;
  replicas = pos 2;
  updated_replicas = updated;
  ready_replicas = ready;
  available_replicas = ready;
  unavailable_replicas = pos 0;
  conditions = conditions;
}

abbrev pub with_deployment_status : DeploymentStatus → Deployment
with_deployment_status s = record (build_deployment plain_digest demo) {
  meta = demo_meta;
  status = s;
}

abbrev pub served : Deployment
served = with_deployment_status (status_of (pos 2) (pos 2) [])

abbrev pub failed_deployment : Deployment
failed_deployment = with_deployment_status (
    status_of (pos 1) (pos 1) (
      record {
        type = "Progressing";
        status = cond_false;
        reason = "ProgressDeadlineExceeded";
        message = "timed out";
      }
      ∷ []))

abbrev pub served_observation : RuntimeObservation
served_observation = record { deployment = some served; service = some (build_service demo) }

abbrev pub failed_observation : RuntimeObservation
failed_observation = record { deployment = some failed_deployment; service = none }

abbrev pub invalid_references : ReferenceValidationResult
invalid_references = record {
  valid = false;
  reason = "SecretNotFound";
  message = "Referenced Secret \"openai\" was not found.";
  error = none;
}

abbrev pub refused_call : Error
refused_call = api "Forbidden" "forbidden"

abbrev pub not_found : Error
not_found = api "NotFound" "not found"
