-- ===== src/Status/Base/Phases.antt =====
-- buildBaseRuntimeStatus implements the table: the phase is read off the specification, the
-- observation and the check of the references.
use trussium_operator.Prelude.{
  ℕ, ◌≡◌, refl, subst, Bool, true, ◌&&◌, Option, none, some, Bool-cases, Option-cases, inl, inr,
  if◌then◌else◌, is_some,
}
use trussium_operator.Prelude.Int.{ℤ, pos, ◌==ℤ◌}
use trussium_operator.Kube.Condition.{cond_true, ConditionApi, IsConditionApi}
use trussium_operator.Kube.Workload.{Deployment}
use trussium_operator.Api.{TrussiumRuntime, TrussiumRuntimeStatus}
use trussium_operator.Resources.Scale.{desired_replicas, desired_replica_count}
use trussium_operator.Status.Constants.{
  condition_type_configuration_valid, reason_references_resolved,
}
use trussium_operator.Status.References.{ReferenceValidationResult}
use trussium_operator.Status.Rollout.{RuntimeObservation, deployment_failure}
use trussium_operator.Status.Conditions.Lookup.{read, said, read-set, set-available, set-ready}
use trussium_operator.Status.Base.{
  available_count, observed_status, deployment_observed, deployed_status, put, observed_outcome,
  build_base_runtime_status,
}
use trussium_operator.Status.Base.Outcome.{
  Phase, invalid, absent, at_zero, towards_zero, failing, serving, rolling, is_serving, table,
  Reports, invalid_status-Reports, missing_status-Reports, at_zero_status-Reports,
  towards_zero_status-Reports, failed_status-Reports, ready_status-Reports,
  progressing_status-Reports,
}

-- All of `n` replicas are ready and available, under the current generation.
abbrev pub is_settled : Deployment → ℤ → ℤ → ℤ → Bool
is_settled d ready available n = deployment_observed d && ready ==ℤ n && available ==ℤ n

abbrev pub deployed_phase : Deployment → ℤ → ℤ → ℤ → Phase
deployed_phase d ready available desired =
    if desired ==ℤ pos 0
    then (if is_settled d ready available (pos 0) then at_zero else towards_zero)
    else if is_some (deployment_failure d)
    then failing
    else if is_settled d ready available desired
    then serving
    else rolling

abbrev pub phase_at : TrussiumRuntime → Option Deployment → Phase
phase_at r none = absent
phase_at r (some d) =
    deployed_phase d d.status.ready_replicas d.status.available_replicas
      (desired_replica_count r (some d))

abbrev pub phase : TrussiumRuntime → RuntimeObservation → Bool → Phase
phase r o valid = if valid then phase_at r o.deployment else invalid

-- The count against which availability is reported: with invalid references it is the declared one.
abbrev pub wanted : TrussiumRuntime → RuntimeObservation → Bool → ℤ
wanted r o valid = if valid then desired_replica_count r o.deployment else desired_replicas r

module _ {m : ConditionApi} (laws : IsConditionApi m) (now : ℕ) (g : ℤ) where
  deployed_status-Reports :
      (d : Deployment) (desired : ℤ) (s : TrussiumRuntimeStatus)
      → said (read m s "ConfigurationValid") ≡ some (cond_true, g)
      → Reports m (deployed_status m now g d desired s) g (
          table
            (deployed_phase d s.ready_replicas s.available_replicas desired)
            (is_serving desired s.available_replicas))
  unfolding deployed_status
  deployed_status-Reports d desired s v = elim (Bool-cases (desired ==ℤ pos 0)) [
    | inl z ↦ rw z (elim (Bool-cases (is_settled d ready available (pos 0))) [
      | inl e ↦ rw e (at_zero_status-Reports laws now g s v)
      | inr e ↦ rw e (towards_zero_status-Reports laws now g s v)
    ])
    | inr z ↦ rw z (elim (Option-cases (deployment_failure d)) [
      | inr (f, e) ↦ rw e (rw z at (failed_status-Reports laws now g f.0 f.1 desired s v))
      | inl e ↦ rw e (elim (Bool-cases (is_settled d ready available desired)) [
        | inl e' ↦ rw e' (ready_status-Reports laws now g s v)
        | inr e' ↦
            rw e'
              (rw z at (progressing_status-Reports laws now g (deployment_observed d) desired s v))
      ])
    ])
  ]
    where
      open s use {ready_replicas as ready, available_replicas as available}

module _ {m : ConditionApi} (laws : IsConditionApi m) (now : ℕ) where
  -- The status behind the first write of a valid configuration.
  abbrev validated : TrussiumRuntime → RuntimeObservation → TrussiumRuntimeStatus
  validated r o =
      put m now r.meta.generation condition_type_configuration_valid true reason_references_resolved
        "All referenced Secrets are available." (observed_status r o)

  validated-valid :
      (r : TrussiumRuntime) (o : RuntimeObservation)
      → said (read m (validated r o) "ConfigurationValid") ≡ some (cond_true, r.meta.generation)
  validated-valid r o = simp (read-set laws now)

  observed-Reports :
      (r : TrussiumRuntime) (o : RuntimeObservation) (d : Option Deployment)
      → o.deployment ≡ d
      → Reports m
          (observed_outcome m now r d (validated r o))
          r.meta.generation
          (table (phase_at r d) (is_serving (desired_replica_count r d) (available_count d)))
  observed-Reports r o none e = subst (Reports m _ r.meta.generation) (rw (set-available, e)) (
      missing_status-Reports laws now r.meta.generation (desired_replica_count r none)
        (validated r o) (validated-valid r o))
  observed-Reports r o (some d) e =
      subst (Reports m _ r.meta.generation) (rw (set-available, set-ready, e)) (
        deployed_status-Reports laws now r.meta.generation d (desired_replica_count r (some d))
          (validated r o) (validated-valid r o))

  -- buildBaseRuntimeStatus states the five conditions of the table's row for the phase that
  -- the runtime is in, all of them for the runtime's current generation.
  pub build_base-Reports :
      (r : TrussiumRuntime) (o : RuntimeObservation) (v : ReferenceValidationResult)
      → Reports m (build_base_runtime_status m now r o v) r.meta.generation (
          table
            (phase r o v.valid)
            (is_serving (wanted r o v.valid) (available_count o.deployment)))
  unfolding build_base_runtime_status
  build_base-Reports r o v = elim (Bool-cases v.valid) [
    | inl e ↦ rw e (observed-Reports r o o.deployment refl)
    | inr e ↦ simp e (
        invalid_status-Reports laws now r.meta.generation v (desired_replicas r)
          (observed_status r o))
  ]
