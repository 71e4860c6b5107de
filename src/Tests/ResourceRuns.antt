-- ===== src/Tests/ResourceRuns.antt =====
-- The theorems of the managed objects at a concrete runtime.
use trussium_operator.Prelude.{
  eq_iff, String, ◌==◌, Bool-cases, inl, inr, subst, ◌≡◌, refl, true, some, [], ◌∷◌, arith,
}
use trussium_operator.Prelude.Int.{ℤ, pos, ◌≤ℤ◌, IsInt32}
use trussium_operator.Prelude.Map.{StringMap, lookup, HasUniqueKeys}
use trussium_operator.Resources.Scale.{termination_grace_period_seconds, autoscaling_enabled}
use trussium_operator.Resources.Identity.{runtime_labels, merged_pod_labels}
use trussium_operator.Resources.Config.{
  runtime_config_data, runtime_config_checksum, pod_annotations,
}
use trussium_operator.Resources.Deployments.{build_deployment}
use trussium_operator.Resources.Objects.{
  build_horizontal_pod_autoscaler, build_service, build_pod_disruption_budget, build_network_policy,
}
use trussium_operator.Resources.Labels.{
  SelectsOwn, lookup-merged_pod_labels, build-SelectsOwn, lookup-pod_annotations,
}
use trussium_operator.Resources.Checksum.{checksum-lookup}
use trussium_operator.Resources.Checksum.Injective.{checksum_payload-lookup}
use trussium_operator.Prelude.Sort.{sort, sort_insert}
use trussium_operator.Prelude.Text.{decimal, decimal_onto}
use trussium_operator.Resources.Config.{checksum_payload, payload_of}
use trussium_operator.Resources.Environment.{lookup-runtime_config_data}
use trussium_operator.Resources.Bounds.{termination_grace-above, build-InBounds}
use trussium_operator.Tests.Fixtures.{demo, demo_network_policy, autoscaled_demo, plain_digest}

lookup-merged_pod_labels_example :
    lookup "app.kubernetes.io/name" (merged_pod_labels demo) ≡ some "trussium"
unfolding runtime_labels lookup
lookup-merged_pod_labels_example = lookup-merged_pod_labels demo "app.kubernetes.io/name"

build-SelectsOwn_example :
    SelectsOwn plain_digest demo (build_deployment plain_digest demo).spec.selector.match_labels
    × SelectsOwn plain_digest demo (build_service demo).spec.selector
    × SelectsOwn plain_digest demo (build_pod_disruption_budget demo).spec.selector.match_labels
    × SelectsOwn plain_digest demo
        (build_network_policy demo demo_network_policy).spec.pod_selector.match_labels
build-SelectsOwn_example = build-SelectsOwn plain_digest demo demo_network_policy

demo_annotations-HasUniqueKeys :
    HasUniqueKeys (("note", "x") ∷ ("runtime.trussium.io/config-checksum", "forged") ∷ [])
unfolding lookup
demo_annotations-HasUniqueKeys = (refl, (refl, tt))

lookup-pod_annotations_example :
    lookup "runtime.trussium.io/config-checksum" (pod_annotations plain_digest demo)
    ≡ some (runtime_config_checksum plain_digest (runtime_config_data demo))
lookup-pod_annotations_example =
    lookup-pod_annotations plain_digest demo "runtime.trussium.io/config-checksum"
      demo_annotations-HasUniqueKeys

lookup-runtime_config_data_example :
    lookup "TRUSSIUM_PROVIDER__NAME" (runtime_config_data demo) ≡ some "openai"
lookup-runtime_config_data_example = lookup-runtime_config_data demo "TRUSSIUM_PROVIDER__NAME"

thirty : IsInt32 (pos 30)
thirty = record { above = omega arith; below = omega arith }

termination_grace-above_example :
    (termination_grace_period_seconds demo ≡ pos 36)
    × (pos 31 ≤ℤ termination_grace_period_seconds demo)
termination_grace-above_example = termination_grace-above demo (pos 30) refl thirty (omega arith)

is_on : autoscaling_enabled autoscaled_demo ≡ true
unfolding autoscaling_enabled
is_on = refl

build-InBounds_example :
    let autoscaler = (build_horizontal_pod_autoscaler autoscaled_demo).spec in
    (low n : ℤ) × (autoscaler.min_replicas ≡ some low)
    × ((build_deployment plain_digest autoscaled_demo).spec.replicas ≡ some n)
    × (pos 1 ≤ℤ low)
    × (low ≤ℤ n)
    × (n ≤ℤ autoscaler.max_replicas)
    × (autoscaler.max_replicas ≤ℤ pos 1000)
build-InBounds_example =
    build-InBounds plain_digest autoscaled_demo
      (record {
        min_at_least_one = ground arith;
        max_at_most_1000 = ground arith;
        ordered = ground arith;
      })
      is_on

abbrev one_order : StringMap
one_order = ("B", "2") ∷ ("A", "1") ∷ []

abbrev other_order : StringMap
other_order = ("A", "1") ∷ ("B", "2") ∷ []

orders-HasUniqueKeys : HasUniqueKeys one_order × HasUniqueKeys other_order
unfolding lookup
orders-HasUniqueKeys = ((refl, (refl, tt)), (refl, (refl, tt)))

same_entries : (k : String) → lookup k one_order ≡ lookup k other_order
unfolding lookup
same_entries k = elim (Bool-cases ("A" == k)) [
  | inl e ↦ subst (λ t. lookup t one_order ≡ lookup t other_order) ((eq_iff "A" k).0 e) refl
  | inr e ↦ rw e refl
]

checksum-lookup_example :
    runtime_config_checksum plain_digest one_order
    ≡ runtime_config_checksum plain_digest other_order
checksum-lookup_example =
    checksum-lookup plain_digest one_order other_order orders-HasUniqueKeys.0 orders-HasUniqueKeys.1
      same_entries

one_payload : checksum_payload one_order ≡ checksum_payload other_order
unfolding checksum_payload payload_of sort sort_insert lookup decimal decimal_onto
one_payload = refl

checksum_payload-lookup_example : lookup "A" one_order ≡ lookup "A" other_order
checksum_payload-lookup_example = checksum_payload-lookup one_order other_order one_payload "A"
