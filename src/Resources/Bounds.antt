-- ===== src/Resources/Bounds.antt =====
-- Replica bounds and grace periods of the objects built from an admitted specification.
use trussium_operator.Prelude.{String, ◌≡◌, refl, true, false, Option, none, some, arith}
use trussium_operator.Prelude.Int.{ℤ, pos, negsuc, ◌≤ℤ◌, ◌+ℤ◌, ◌==ℤ◌, IsInt32}
use trussium_operator.Api.{TrussiumRuntime, RuntimeAutoscalingSpec}
use trussium_operator.Api.Schema.{IsAdmittedAutoscaling}
use trussium_operator.Resources.Scale.{
  drain_timeout, termination_grace_period_seconds, autoscaling_enabled, bound_or,
  desired_autoscaling_min_replicas, desired_autoscaling_max_replicas, initial_deployment_replicas,
}
use trussium_operator.Resources.Deployments.{build_deployment}
use trussium_operator.Resources.Objects.{build_horizontal_pod_autoscaler}

-- The Pods of a runtime with a drain timeout of a positive int32 are given that timeout and six
-- seconds more: the sum does not leave int64, and the drain ends before the Pod is killed.
pub termination_grace-above :
    (r : TrussiumRuntime) (t : ℤ)
    → drain_timeout r.spec.runtime ≡ some t
    → IsInt32 t
    → pos 1 ≤ℤ t
    → (termination_grace_period_seconds r ≡ t +ℤ pos 6)
      × (t +ℤ pos 1 ≤ℤ termination_grace_period_seconds r)
unfolding termination_grace_period_seconds
termination_grace-above r (pos n) given i positive = rw given (ground (arith, i), ground (arith, i))
termination_grace-above r (negsuc n) given i positive = ground arith

positive-not_zero : (a : ℤ) → pos 1 ≤ℤ a → (a ==ℤ pos 0) ≡ false
unfolding ◌==ℤ◌
positive-not_zero (pos n) h = ground arith
positive-not_zero (negsuc n) h = refl

abbrev pub AdmitsScale : Option RuntimeAutoscalingSpec → Type 0
AdmitsScale none = Unit
AdmitsScale (some a) = IsAdmittedAutoscaling a

-- The autoscaler of an admitted runtime has a lower bound of at least one replica that does not
-- exceed its upper bound, itself at most 1000.
autoscaler-bounds :
    (r : TrussiumRuntime)
    → AdmitsScale r.spec.autoscaling
    → let low = desired_autoscaling_min_replicas r in
      let high = desired_autoscaling_max_replicas r in
      (pos 1 ≤ℤ low) × (low ≤ℤ high) × (high ≤ℤ pos 1000)
unfolding desired_autoscaling_min_replicas desired_autoscaling_max_replicas
autoscaler-bounds r h = go r.spec.autoscaling h
  where
    go :
        (o : Option RuntimeAutoscalingSpec)
        → AdmitsScale o
        → (pos 1 ≤ℤ bound_or o (λ a. a.min_replicas) (pos 1))
          × (bound_or o (λ a. a.min_replicas) (pos 1) ≤ℤ bound_or o (λ a. a.max_replicas) (pos 10))
          × (bound_or o (λ a. a.max_replicas) (pos 10) ≤ℤ pos 1000)
    go none h = ground arith
    go (some a) h =
        rw
          (
            positive-not_zero a.min_replicas h.min_at_least_one,
            positive-not_zero a.max_replicas (ground (arith, h.min_at_least_one, h.ordered)),
          )
          (h.min_at_least_one, h.ordered, h.max_at_most_1000)

-- Where the specification was admitted by the schema and autoscaling is enabled, the Deployment is built
-- with a number of replicas between the two bounds of the HorizontalPodAutoscaler that is built beside
-- it, of which the lower is at least 1 and the upper at most 1000.
pub build-InBounds :
    (sha256_hex : String → String) (r : TrussiumRuntime)
    → AdmitsScale r.spec.autoscaling
    → autoscaling_enabled r ≡ true
    → let autoscaler = (build_horizontal_pod_autoscaler r).spec in
      (low n : ℤ) × (autoscaler.min_replicas ≡ some low)
      × ((build_deployment sha256_hex r).spec.replicas ≡ some n)
      × (pos 1 ≤ℤ low)
      × (low ≤ℤ n)
      × (n ≤ℤ autoscaler.max_replicas)
      × (autoscaler.max_replicas ≤ℤ pos 1000)
unfolding build_deployment build_horizontal_pod_autoscaler initial_deployment_replicas
build-InBounds sha256_hex r h on =
    let (one, ordered, high) = autoscaler-bounds r h in
    (
      desired_autoscaling_min_replicas r,
      desired_autoscaling_min_replicas r,
      refl,
      rw on,
      one,
      ground arith,
      ordered,
      high,
    )
