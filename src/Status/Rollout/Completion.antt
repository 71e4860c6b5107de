-- ===== src/Status/Rollout/Completion.antt =====
-- When a rollout is complete, and that the two scans for a failure agree.
use trussium_operator.Prelude.{
  ◌≡◌, refl, ◌↔◌, true, false, some, List, [], ◌∷◌, arith, is_some, ◌||◌,
}
use trussium_operator.Prelude.Int.{ℤ, pos, ◌≤ℤ◌, ==ℤ_iff, ltb_ℤ-false}
use trussium_operator.Kube.Workload.{DeploymentCondition, Deployment}
use trussium_operator.Api.{TrussiumRuntime}
use trussium_operator.Resources.Scale.{desired_replica_count}
use trussium_operator.Status.Rollout.{
  rollout_complete, rollout_failed, has_failure_condition, deployment_has_rollout_failure,
  rollout_of, observe_deployment_rollout, find_deadline_exceeded, find_replica_failure,
  deployment_failure,
}

-- All replicas of the desired count run the current template, and no other replica is left.
pub record IsConverged (d : Deployment) (desired : ℤ) : Type 0 where
  pub generation_observed : d.meta.generation ≤ℤ d.status.observed_generation
  pub all_updated : d.status.updated_replicas ≡ desired
  pub none_old : d.status.replicas ≡ desired
  pub all_ready : d.status.ready_replicas ≡ desired
  pub all_available : d.status.available_replicas ≡ desired
  pub none_unavailable : d.status.unavailable_replicas ≡ pos 0

rollout_of_complete :
    (d : Deployment) (desired : ℤ)
    → (rollout_of d desired ≡ rollout_complete)
      ↔ ((deployment_has_rollout_failure (some d) ≡ false) × IsConverged d desired)
unfolding rollout_of
rollout_of_complete d desired = ground (
  arith,
  ==ℤ_iff desired (pos 0),
  ==ℤ_iff d.status.replicas (pos 0),
  ==ℤ_iff d.status.updated_replicas (pos 0),
  ==ℤ_iff d.status.ready_replicas (pos 0),
  ==ℤ_iff d.status.available_replicas (pos 0),
  ==ℤ_iff d.status.replicas desired,
  ==ℤ_iff d.status.updated_replicas desired,
  ==ℤ_iff d.status.ready_replicas desired,
  ==ℤ_iff d.status.available_replicas desired,
  ==ℤ_iff d.status.unavailable_replicas (pos 0),
  ltb_ℤ-false d.status.observed_generation d.meta.generation,
)

-- The rollout of an existing Deployment is complete exactly when it reports no failure, its current
-- generation is observed, its updated, total, ready and available replicas all equal the desired
-- count, and its unavailable replicas are 0, also where the desired count is 0.
pub observe-complete_iff :
    (r : TrussiumRuntime) (d : Deployment)
    → (observe_deployment_rollout r (some d) ≡ rollout_complete) ↔ (
        (deployment_has_rollout_failure (some d) ≡ false)
        × IsConverged d (desired_replica_count r (some d)))
unfolding observe_deployment_rollout
observe-complete_iff r d = rollout_of_complete d (desired_replica_count r (some d))

has_failure_condition-eq :
    (cs : List DeploymentCondition)
    → has_failure_condition cs
      ≡ (is_some (find_deadline_exceeded cs) || is_some (find_replica_failure cs))
unfolding has_failure_condition find_deadline_exceeded find_replica_failure
has_failure_condition-eq [] = refl
has_failure_condition-eq (c ∷ rest) = ground (arith, has_failure_condition-eq rest)

-- The rollout of an existing Deployment is failed exactly when deploymentFailure, which scans the
-- conditions in two loops, finds a failure in them.
pub observe-failed_iff :
    (r : TrussiumRuntime) (d : Deployment)
    → (observe_deployment_rollout r (some d) ≡ rollout_failed)
      ↔ (is_some (deployment_failure d) ≡ true)
unfolding observe_deployment_rollout deployment_failure
observe-failed_iff r d = ground (arith, has_failure_condition-eq d.status.conditions)
