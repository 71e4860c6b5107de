-- ===== src/Resources/Labels.antt =====
-- The labels and annotations of runtime Pods: what the operator sets is not overridden, and every
-- selector selects the Pods.
use trussium_operator.Prelude.{
  ◌≢◌, ◌≡◌, refl, sym, ◌∙◌, ap, subst, String, Option, none, some, [], ◌∷◌, arith, Bool-cases,
  Option-cases, inl, inr, eq_iff, ◌==◌, if◌then◌else◌, is_some,
}
use trussium_operator.Prelude.Map.{StringMap, lookup, insert, lookup-insert, HasUniqueKeys}
use trussium_operator.Api.{TrussiumRuntime, PodMetadataSpec, RuntimeNetworkPolicySpec}
use trussium_operator.Resources.Constants.{runtime_config_checksum_annotation}
use trussium_operator.Resources.Identity.{
  runtime_labels, runtime_selector_labels, merge_labels, merged_pod_labels, pod_labels_over,
}
use trussium_operator.Resources.Config.{
  copy_into, user_annotations, pod_annotations, runtime_config_checksum, runtime_config_data,
}
use trussium_operator.Resources.Deployments.{build_deployment}
use trussium_operator.Resources.Objects.{
  build_service, build_pod_disruption_budget, build_network_policy,
}

-- The first choice, or the second.
abbrev pub first_of : Option String → Option String → Option String
first_of none y = y
first_of (some x) y = some x

lookup-merge_one :
    (k j v : String) (labels : StringMap)
    → lookup k (if is_some (lookup j labels) then labels else insert j v labels)
      ≡ first_of (lookup k labels) (if j == k then some v else none)
unfolding lookup
lookup-merge_one k j v labels = elim (Option-cases (lookup j labels)) [
  | inl e ↦ ground (arith, eq_iff j k, lookup-insert j k v labels, e)
  | inr (x, e) ↦ ground (arith, eq_iff j k, e)
]

first_of-none : (x : Option String) → first_of x none ≡ x
first_of-none none = refl
first_of-none (some a) = refl

first_of_assoc : (x y z : Option String) → first_of (first_of x y) z ≡ first_of x (first_of y z)
first_of_assoc none y z = refl
first_of_assoc (some a) y z = refl

lookup-cons :
    (k j v : String) (rest : StringMap)
    → first_of (if j == k then some v else none) (lookup k rest) ≡ lookup k ((j, v) ∷ rest)
unfolding lookup
lookup-cons k j v rest = ground arith

lookup-merge_labels :
    (k : String) (labels user : StringMap)
    → lookup k (merge_labels labels user) ≡ first_of (lookup k labels) (lookup k user)
unfolding merge_labels lookup
lookup-merge_labels k labels [] = sym (first_of-none (lookup k labels))
lookup-merge_labels k labels ((j, v) ∷ rest) =
    lookup-merge_labels k (if is_some (lookup j labels) then labels else insert j v labels) rest
    ∙ (ap (λ x. first_of x (lookup k rest)) (lookup-merge_one k j v labels)
        ∙ (first_of_assoc (lookup k labels) _ (lookup k rest)
            ∙ ap (first_of (lookup k labels)) (lookup-cons k j v rest)))

abbrev pub user_labels : Option PodMetadataSpec → StringMap
user_labels none = []
user_labels (some m) = m.labels

-- A Pod's label is the operator's where the operator sets the key, and the user's for every other
-- key.
pub lookup-merged_pod_labels :
    (r : TrussiumRuntime) (k : String)
    → lookup k (merged_pod_labels r)
      ≡ first_of (lookup k (runtime_labels r)) (lookup k (user_labels r.spec.pod_metadata))
unfolding merged_pod_labels lookup
lookup-merged_pod_labels r k = go r.spec.pod_metadata
  where
    go :
        (o : Option PodMetadataSpec)
        → lookup k (pod_labels_over (runtime_labels r) o)
          ≡ first_of (lookup k (runtime_labels r)) (lookup k (user_labels o))
    go none = sym (first_of-none (lookup k (runtime_labels r)))
    go (some m) = lookup-merge_labels k (runtime_labels r) m.labels

-- Every label that the selector asks for is there.
abbrev pub Selects : StringMap → StringMap → Type 0
Selects selector labels = (k v : String) → lookup k selector ≡ some v → lookup k labels ≡ some v

-- The labels of the Pods that the runtime's Deployment makes.
abbrev pub pod_labels : (String → String) → TrussiumRuntime → StringMap
pod_labels sha256_hex r = (build_deployment sha256_hex r).spec.template.labels

-- The selector takes the Pods of the runtime, and none of a runtime of another name.
abbrev pub SelectsOwn : (String → String) → TrussiumRuntime → StringMap → Type 0
SelectsOwn sha256_hex r selector =
    Selects selector (pod_labels sha256_hex r)
    × ((other : TrussiumRuntime)
        → other.meta.name ≢ r.meta.name
        → ¬ Selects selector (pod_labels sha256_hex other))

selector-labels :
    (r : TrussiumRuntime) (k : String)
    → lookup k (runtime_labels r)
      ≡ first_of (lookup k (runtime_selector_labels r)) (lookup k (runtime_labels r))
unfolding runtime_selector_labels runtime_labels lookup
selector-labels r k = ground arith

-- The user's labels do not replace a label of the selector.
selected :
    (r : TrussiumRuntime) (k : String)
    → lookup k (merged_pod_labels r)
      ≡ first_of (lookup k (runtime_selector_labels r)) (lookup k (merged_pod_labels r))
selected r k = rw (lookup-merged_pod_labels r k) (
    ap (λ x. first_of x (lookup k (user_labels r.spec.pod_metadata))) (selector-labels r k)
    ∙ first_of_assoc (lookup k (runtime_selector_labels r)) (lookup k (runtime_labels r))
        (lookup k (user_labels r.spec.pod_metadata)))

instance_of :
    (r : TrussiumRuntime)
    → lookup "app.kubernetes.io/instance" (runtime_selector_labels r) ≡ some r.meta.name
unfolding runtime_selector_labels lookup
instance_of r = refl

selector-SelectsOwn :
    (sha256_hex : String → String) (r : TrussiumRuntime)
    → SelectsOwn sha256_hex r (runtime_selector_labels r)
unfolding build_deployment
selector-SelectsOwn sha256_hex r = (
  λ k v h. selected r k ∙ ap (λ x. first_of x (lookup k (merged_pod_labels r))) h,
  λ other differs all.
      let key : String = "app.kubernetes.io/instance" in
      let theirs : lookup key (merged_pod_labels other) ≡ some other.meta.name =
        selected other key
        ∙ ap (λ x. first_of x (lookup key (merged_pod_labels other))) (instance_of other) in
      let ours = all key r.meta.name (instance_of r) in
      differs (let same : some other.meta.name ≡ some r.meta.name = sym theirs ∙ ours in cc),
)

-- The Deployment itself, the Service, the PodDisruptionBudget and the NetworkPolicy each select the
-- Pods of the Deployment's template, whatever labels the user gives, and no Pods of a runtime of
-- another name.
pub build-SelectsOwn :
    (sha256_hex : String → String) (r : TrussiumRuntime) (n : RuntimeNetworkPolicySpec)
    → SelectsOwn sha256_hex r (build_deployment sha256_hex r).spec.selector.match_labels
      × SelectsOwn sha256_hex r (build_service r).spec.selector
      × SelectsOwn sha256_hex r (build_pod_disruption_budget r).spec.selector.match_labels
      × SelectsOwn sha256_hex r (build_network_policy r n).spec.pod_selector.match_labels
unfolding build_deployment build_service build_pod_disruption_budget build_network_policy
build-SelectsOwn sha256_hex r n = let all = selector-SelectsOwn sha256_hex r in (all, all, all, all)

lookup-copy_into :
    (k : String) (target source : StringMap)
    → HasUniqueKeys source
    → lookup k (copy_into target source) ≡ first_of (lookup k source) (lookup k target)
unfolding copy_into lookup
lookup-copy_into k target [] u = refl
lookup-copy_into k target ((j, v) ∷ rest) (new, u) =
    lookup-copy_into k (insert j v target) rest u
    ∙ (ap (first_of (lookup k rest)) (lookup-insert j k v target) ∙ elim (Bool-cases (j == k)) [
      | inl e ↦ rw (e, subst (λ i. lookup i rest ≡ none) ((eq_iff j k).0 e) new) refl
      | inr e ↦ rw e refl
    ])

abbrev pub annotations_of : Option PodMetadataSpec → StringMap
annotations_of none = []
annotations_of (some m) = m.annotations

lookup-user_annotations :
    (k : String) (o : Option PodMetadataSpec)
    → HasUniqueKeys (annotations_of o)
    → lookup k (user_annotations o) ≡ lookup k (annotations_of o)
unfolding lookup
lookup-user_annotations k none u = refl
lookup-user_annotations k (some m) u =
    lookup-copy_into k [] m.annotations u ∙ first_of-none (lookup k m.annotations)

-- The checksum of the configuration stands in the Pod template's annotations, whatever annotations
-- the user gives; every other annotation is the user's. A Go map has no key twice.
pub lookup-pod_annotations :
    (sha256_hex : String → String) (r : TrussiumRuntime) (k : String)
    → HasUniqueKeys (annotations_of r.spec.pod_metadata)
    → lookup k (pod_annotations sha256_hex r) ≡ (
        if runtime_config_checksum_annotation == k
        then some (runtime_config_checksum sha256_hex (runtime_config_data r))
        else lookup k (annotations_of r.spec.pod_metadata))
unfolding pod_annotations
lookup-pod_annotations sha256_hex r k u =
    lookup-insert runtime_config_checksum_annotation k _ (user_annotations r.spec.pod_metadata)
    ∙ rw (lookup-user_annotations k r.spec.pod_metadata u) refl
