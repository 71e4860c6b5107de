-- ===== src/Resources/Constants.antt =====
-- The constants of internal/controller/runtime_resources.go.
use trussium_operator.Prelude.{String}
use trussium_operator.Prelude.Int.{ℤ, pos}

abbrev pub runtime_container_name : String
runtime_container_name = "trussium"

abbrev pub runtime_http_port_name : String
runtime_http_port_name = "http"

abbrev pub runtime_config_checksum_annotation : String
runtime_config_checksum_annotation = "runtime.trussium.io/config-checksum"

abbrev pub topology_hostname_key : String
topology_hostname_key = "kubernetes.io/hostname"

abbrev pub health_live_path : String
health_live_path = "/health/live"

abbrev pub health_ready_path : String
health_ready_path = "/health/ready"

abbrev pub env_environment : String
env_environment = "TRUSSIUM_ENVIRONMENT"

abbrev pub env_runtime_host : String
env_runtime_host = "TRUSSIUM_RUNTIME__HOST"

abbrev pub env_runtime_port : String
env_runtime_port = "TRUSSIUM_RUNTIME__PORT"

abbrev pub env_runtime_shutdown_seconds : String
env_runtime_shutdown_seconds = "TRUSSIUM_RUNTIME__GRACEFUL_SHUTDOWN_SECONDS"

abbrev pub env_provider_name : String
env_provider_name = "TRUSSIUM_PROVIDER__NAME"

abbrev pub env_provider_base_url : String
env_provider_base_url = "TRUSSIUM_PROVIDER__BASE_URL"

abbrev pub env_provider_api_key : String
env_provider_api_key = "TRUSSIUM_PROVIDER__API_KEY"

abbrev pub env_provider_request_seconds : String
env_provider_request_seconds = "TRUSSIUM_TIMEOUTS__PROVIDER_REQUEST_SECONDS"

abbrev pub env_provider_stream_idle : String
env_provider_stream_idle = "TRUSSIUM_TIMEOUTS__STREAM_IDLE_SECONDS"

abbrev pub default_runtime_environment : String
default_runtime_environment = "production"

abbrev pub default_runtime_host : String
default_runtime_host = "0.0.0.0"

abbrev pub runtime_http_port : ℤ
runtime_http_port = pos 9000

abbrev pub runtime_user_id : ℤ
runtime_user_id = pos 10001

abbrev pub runtime_group_id : ℤ
runtime_group_id = pos 10001

abbrev pub termination_grace_margin_seconds : ℤ
termination_grace_margin_seconds = pos 6

abbrev pub default_termination_grace_seconds : ℤ
default_termination_grace_seconds = pos 36

abbrev pub deployment_revision_history_limit : ℤ
deployment_revision_history_limit = pos 3

abbrev pub deployment_progress_deadline_seconds : ℤ
deployment_progress_deadline_seconds = pos 600

abbrev pub default_runtime_replica_count : ℤ
default_runtime_replica_count = pos 1

abbrev pub default_service_port : ℤ
default_service_port = pos 9000
