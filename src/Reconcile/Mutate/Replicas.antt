-- ===== src/Reconcile/Mutate/Replicas.antt =====
-- What the mutation of the Deployment leaves to the autoscaler and to the cluster.
use trussium_operator.Prelude.{◌≡◌, sym, ap, ◌∙◌, Option, none, some, arith, if◌then◌else◌}
use trussium_operator.Prelude.Int.{ℤ}
use trussium_operator.Kube.Errors.{ok}
use trussium_operator.Kube.Workload.{Deployment}
use trussium_operator.Api.{TrussiumRuntime}
use trussium_operator.Resources.Scale.{
  autoscaling_enabled, desired_replicas, desired_autoscaling_min_replicas,
  initial_deployment_replicas,
}
use trussium_operator.Resources.Deployments.{build_deployment}
use trussium_operator.Reconcile.Platform.{Platform}
use trussium_operator.Reconcile.Mutate.{with_meta-ok, mutate_deployment, kept_replicas}

-- The number of replicas that is stored: with the autoscaler on, that of the Deployment as it is,
-- and the autoscaler's lower bound for a new one; with the autoscaler off, the specification's.
abbrev pub replicas_after : TrussiumRuntime → Option ℤ → ℤ
replicas_after r none =
    if autoscaling_enabled r then desired_autoscaling_min_replicas r else desired_replicas r
replicas_after r (some n) = if autoscaling_enabled r then n else desired_replicas r

module _ (p : Platform) (r : TrussiumRuntime) where
  pub stored-replicas :
      (current : Option ℤ)
      → kept_replicas r current (some (initial_deployment_replicas r))
        ≡ some (replicas_after r current)
  unfolding initial_deployment_replicas
  stored-replicas none = ground arith
  stored-replicas (some n) = ground arith

  -- A Deployment that is stored has the built selector, strategy and Pod template, keeps the status
  -- that the cluster reports, and has the replicas that the autoscaler chose where it is on, and the
  -- specification's where it is off.
  pub mutate_deployment_lem :
      (current stored : Deployment)
      → mutate_deployment p r current ≡ ok stored
      → (stored.spec ≡ record ((build_deployment p.sha256_hex r).spec) {
        replicas = some (replicas_after r current.spec.replicas);
      })
        × (stored.status ≡ current.status)
  unfolding mutate_deployment build_deployment
  mutate_deployment_lem current stored h =
      let (m, owned, e) = with_meta-ok _ _ stored h in
      (
        ap (λ d. d.spec) (sym e)
            ∙ ap (λ x. record ((build_deployment p.sha256_hex r).spec) { replicas = x })
                (stored-replicas current.spec.replicas),
        ap (λ d. d.status) (sym e),
      )
