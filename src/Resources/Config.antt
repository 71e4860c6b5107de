-- ===== src/Resources/Config.antt =====
-- The runtime's environment and its checksum, of internal/controller/runtime_resources.go. The
-- digest, sha256 in hexadecimal, is a parameter.
use Prim.Native.String.{len}
use trussium_operator.Prelude.{String, ◌<>◌, Option, none, some, List, [], ◌∷◌}
use trussium_operator.Prelude.Int.{ℤ}
use trussium_operator.Prelude.Text.{decimal, itoa}
use trussium_operator.Prelude.Map.{StringMap, lookup, insert, keys}
use trussium_operator.Prelude.Sort.{sort}
use trussium_operator.Api.{TrussiumRuntime, RuntimeSettingsSpec, PodMetadataSpec}
use trussium_operator.Resources.Constants.{
  env_environment, env_runtime_host, env_runtime_port, env_provider_name, env_provider_base_url,
  env_provider_request_seconds, env_provider_stream_idle, env_runtime_shutdown_seconds,
  default_runtime_environment, default_runtime_host, runtime_http_port,
  runtime_config_checksum_annotation,
}

-- A write that is made where the pointer is not nil.
abbrev pub set_text : String → Option String → StringMap → StringMap
set_text key none m = m
set_text key (some value) m = insert key value m

abbrev pub set_number : String → Option ℤ → StringMap → StringMap
set_number key none m = m
set_number key (some n) m = insert key (itoa n) m

abbrev pub with_settings : Option RuntimeSettingsSpec → StringMap → StringMap
with_settings none m = m
with_settings (some s) m =
    set_number env_runtime_shutdown_seconds s.shutdown_drain_timeout_seconds (
      set_number env_provider_stream_idle s.stream_idle_timeout_seconds
        (set_number env_provider_request_seconds s.provider_request_timeout_seconds m))

abbrev pub base_data : TrussiumRuntime → StringMap
base_data r =
    (env_environment, default_runtime_environment)
    ∷ (env_runtime_host, default_runtime_host)
    ∷ (env_runtime_port, itoa runtime_http_port)
    ∷ (env_provider_name, r.spec.provider.type)
    ∷ []

unfoldable pub runtime_config_data : TrussiumRuntime → StringMap
runtime_config_data r =
    with_settings r.spec.runtime
      (set_text env_provider_base_url r.spec.provider.base_url (base_data r))

-- `data[key]`: the empty text where the key is missing.
abbrev pub value_at : Option String → String
value_at none = ""
value_at (some v) = v

abbrev pub payload_entry : String → String → String
payload_entry key value =
    decimal (len key) <> ":" <> key <> ":" <> decimal (len value) <> ":" <> value <> ";"

-- The loop over the sorted keys.
unfoldable pub payload_of : StringMap → List String → String
payload_of contents [] = ""
payload_of contents (key ∷ rest) =
    payload_entry key (value_at (lookup key contents)) <> payload_of contents rest

-- The text that is hashed.
unfoldable pub checksum_payload : StringMap → String
checksum_payload contents = payload_of contents (sort (keys contents))

-- maps.Copy
unfoldable pub copy_into : StringMap → StringMap → StringMap
copy_into target [] = target
copy_into target ((key, value) ∷ rest) = copy_into (insert key value target) rest

abbrev pub user_annotations : Option PodMetadataSpec → StringMap
user_annotations none = []
user_annotations (some p) = copy_into [] p.annotations

module _ (sha256_hex : String → String) where
  unfoldable pub runtime_config_checksum : StringMap → String
  runtime_config_checksum contents = sha256_hex (checksum_payload contents)

  unfoldable pub pod_annotations : TrussiumRuntime → StringMap
  pod_annotations r =
      insert runtime_config_checksum_annotation (runtime_config_checksum (runtime_config_data r))
        (user_annotations r.spec.pod_metadata)
