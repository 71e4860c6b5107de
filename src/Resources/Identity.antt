-- ===== src/Resources/Identity.antt =====
-- Labels, annotations, image and scheduling of runtime Pods, of
-- internal/controller/runtime_resources.go.
use trussium_operator.Prelude.{
  String, ◌<>◌, Option, none, some, List, [], ◌∷◌, map, ◌==◌, if◌then◌else◌, is_some,
}
use trussium_operator.Prelude.Map.{StringMap, lookup, insert}
use trussium_operator.Kube.{ServiceType, service_type_cluster_ip}
use trussium_operator.Kube.Workload.{LocalObjectReference, Toleration, Affinity, EnvVar}
use trussium_operator.Api.{RuntimeImageSpec, SecretKeyReference, PodMetadataSpec, TrussiumRuntime}
use trussium_operator.Resources.Constants.{runtime_container_name, env_provider_api_key}

unfoldable pub runtime_labels : TrussiumRuntime → StringMap
runtime_labels r =
    ("app.kubernetes.io/name", runtime_container_name)
    ∷ ("app.kubernetes.io/instance", r.meta.name)
    ∷ ("app.kubernetes.io/component", "runtime")
    ∷ ("app.kubernetes.io/managed-by", "trussium-operator")
    ∷ []

unfoldable pub runtime_selector_labels : TrussiumRuntime → StringMap
runtime_selector_labels r =
    ("app.kubernetes.io/name", runtime_container_name)
    ∷ ("app.kubernetes.io/instance", r.meta.name)
    ∷ []

abbrev image_reference : String → Option String → Option String → String
image_reference repository (some digest) tag = repository <> "@" <> digest
image_reference repository none (some tag) = repository <> ":" <> tag
image_reference repository none none = repository

unfoldable pub runtime_image : RuntimeImageSpec → String
runtime_image i = image_reference i.repository i.digest i.tag

-- The loop over the user's labels: `labels` grows, and a key that stands in it is skipped.
unfoldable pub merge_labels : StringMap → StringMap → StringMap
merge_labels labels [] = labels
merge_labels labels ((key, value) ∷ rest) =
    merge_labels (if is_some (lookup key labels) then labels else insert key value labels) rest

abbrev pub pod_labels_over : StringMap → Option PodMetadataSpec → StringMap
pod_labels_over labels none = labels
pod_labels_over labels (some p) = merge_labels labels p.labels

unfoldable pub merged_pod_labels : TrussiumRuntime → StringMap
merged_pod_labels r = pod_labels_over (runtime_labels r) r.spec.pod_metadata

unfoldable pub runtime_node_selector : TrussiumRuntime → StringMap
runtime_node_selector r = elim r.spec.scheduling [ none ↦ [] | some s ↦ s.node_selector ]

unfoldable pub runtime_tolerations : TrussiumRuntime → List Toleration
runtime_tolerations r = elim r.spec.scheduling [ none ↦ [] | some s ↦ s.tolerations ]

unfoldable pub runtime_affinity : TrussiumRuntime → Option Affinity
runtime_affinity r = elim r.spec.scheduling [ none ↦ none | some s ↦ s.affinity ]

unfoldable pub image_pull_secrets : TrussiumRuntime → List LocalObjectReference
image_pull_secrets r = map (λ reference. record { name = reference.name }) r.spec.image_pull_secrets

abbrev credential_env : Option SecretKeyReference → List EnvVar
credential_env none = []
credential_env (some s) =
    record { name = env_provider_api_key; secret_key_ref = record { name = s.name; key = s.key } }
    ∷ []

unfoldable pub provider_credential_env : TrussiumRuntime → List EnvVar
provider_credential_env r = credential_env r.spec.provider.credentials_secret_ref

unfoldable pub desired_service_type : TrussiumRuntime → ServiceType
desired_service_type r =
    if r.spec.service.type == "" then service_type_cluster_ip else r.spec.service.type
