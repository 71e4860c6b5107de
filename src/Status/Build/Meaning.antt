-- ===== src/Status/Build/Meaning.antt =====
-- What the status of a reconciliation means: the conditions that buildRuntimeStatus leaves.
use trussium_operator.Prelude.{
  ℕ, ◌≡◌, refl, ◌∙◌, String, Bool-cases, inl, inr, ◌≢◌, ◌↔◌, ◌⊎◌, Bool, true, false, Option, none,
  some, arith, is_some,
}
use trussium_operator.Prelude.Int.{ℤ, pos, ◌≤ℤ◌, ==ℤ_iff, ltb_ℤ-false}
use trussium_operator.Kube.Condition.{
  ConditionStatus, cond_true, cond_false, ConditionApi, IsConditionApi,
}
use trussium_operator.Kube.Workload.{Deployment}
use trussium_operator.Api.{TrussiumRuntime}
use trussium_operator.Resources.Scale.{desired_replica_count}
use trussium_operator.Status.References.{ReferenceValidationResult}
use trussium_operator.Status.Rollout.{RuntimeObservation, deployment_failure}
use trussium_operator.Status.Conditions.Lookup.{read, said}
use trussium_operator.Status.Base.{available_count, build_base_runtime_status}
use trussium_operator.Status.Base.Outcome.{Phase, truth, Reports, table, is_serving}
use trussium_operator.Status.Base.Phases.{phase, phase_at, wanted, build_base-Reports}
use trussium_operator.Status.Upgrade.Tracking.{read-apply_upgrade}
use trussium_operator.Status.Build.{build_runtime_status}

module _ {m : ConditionApi} (laws : IsConditionApi m) (now : ℕ) where
  -- For every observation and every earlier status, the new status states the five conditions of the
  -- table's row for the runtime's phase, all of them for the current generation.
  -- Conditions are set and found as the library documents it.
  pub build-Reports :
      (r : TrussiumRuntime) (o : RuntimeObservation) (v : ReferenceValidationResult)
      → Reports m (build_runtime_status m now r o v) r.meta.generation (
          table
            (phase r o v.valid)
            (is_serving (wanted r o v.valid) (available_count o.deployment)))
  unfolding build_runtime_status
  build-Reports r o v =
      let b = build_base_runtime_status m now r o v in
      let kept = read-apply_upgrade laws now r o.deployment b in
      let base = build_base-Reports laws now r o v in
      record {
        says_valid = rw (kept "ConfigurationValid" refl) base.says_valid;
        says_progressing = rw (kept "Progressing" refl) base.says_progressing;
        says_available = rw (kept "Available" refl) base.says_available;
        says_ready = rw (kept "Ready" refl) base.says_ready;
        says_degraded = rw (kept "Degraded" refl) base.says_degraded;
      }

-- All wanted replicas are ready and available under the current generation, and no failure is
-- reported unless no replica is wanted.
pub record ServesAll (r : TrussiumRuntime) (d : Deployment) : Type 0 where
  pub generation_observed : d.meta.generation ≤ℤ d.status.observed_generation
  pub all_ready : d.status.ready_replicas ≡ desired_replica_count r (some d)
  pub all_available : d.status.available_replicas ≡ desired_replica_count r (some d)
  pub none_failed :
      (desired_replica_count r (some d) ≡ pos 0) ⊎ (is_some (deployment_failure d) ≡ false)

abbrev pub DeploymentServesAll : TrussiumRuntime → Option Deployment → Type 0
DeploymentServesAll r none = ⊥
DeploymentServesAll r (some d) = ServesAll r d

-- The Deployment reports a failure and replicas are wanted.
abbrev pub DeploymentHasFailed : TrussiumRuntime → Option Deployment → Type 0
DeploymentHasFailed r none = ⊥
DeploymentHasFailed r (some d) =
    (desired_replica_count r (some d) ≢ pos 0) × (is_some (deployment_failure d) ≡ true)

table-ready :
    (r : TrussiumRuntime) (d : Option Deployment) (reachable : Bool)
    → ((table (phase_at r d) reachable).ready ≡ true) ↔ DeploymentServesAll r d
table-ready r none reachable = (λ h. cc, λ h. elim h [ ])
table-ready r (some d) reachable = ground (
  arith,
  ==ℤ_iff (desired_replica_count r (some d)) (pos 0),
  ==ℤ_iff d.status.ready_replicas (pos 0),
  ==ℤ_iff d.status.available_replicas (pos 0),
  ==ℤ_iff d.status.ready_replicas (desired_replica_count r (some d)),
  ==ℤ_iff d.status.available_replicas (desired_replica_count r (some d)),
  ltb_ℤ-false d.status.observed_generation d.meta.generation,
)

table-degraded :
    (r : TrussiumRuntime) (d : Option Deployment) (reachable : Bool)
    → ((table (phase_at r d) reachable).degraded ≡ true) ↔ DeploymentHasFailed r d
table-degraded r none reachable = (λ h. cc, λ h. elim h [ ])
table-degraded r (some d) reachable =
    ground (arith, ==ℤ_iff (desired_replica_count r (some d)) (pos 0))

said_true :
    {o : Option (ConditionStatus × ℤ)} (b : Bool) (g : ℤ)
    → o ≡ some (truth b, g)
    → (o ≡ some (cond_true, g)) ↔ (b ≡ true)
said_true true g e = (λ h. refl, λ h. e)
said_true false g e = (λ h. cc, λ h. cc)

-- What a ready runtime excludes, read off the table.
table-ready_excludes :
    (p : Phase) (reachable : Bool)
    → (table p reachable).ready ≡ true
    → ((table p reachable).configuration_valid ≡ true)
      × ((table p reachable).progressing ≡ false)
      × ((table p reachable).degraded ≡ false)
table-ready_excludes p reachable h = ground arith

module _ {m : ConditionApi} (laws : IsConditionApi m) (now : ℕ) where
  abbrev pub Says :
      TrussiumRuntime
      → RuntimeObservation
      → ReferenceValidationResult
      → String
      → ConditionStatus
      → Type 0
  Says r o v t c = said (read m (build_runtime_status m now r o v) t) ≡ some (c, r.meta.generation)

  -- Ready holds exactly when the references are valid, the Deployment exists, its current generation
  -- is observed, its ready and its available replicas both equal the desired count, and, where that
  -- count is not 0, no failure is found.
  -- Conditions are set and found as the library documents it.
  pub ready_iff :
      (r : TrussiumRuntime) (o : RuntimeObservation) (v : ReferenceValidationResult)
      → Says r o v "Ready" cond_true ↔ ((v.valid ≡ true) × DeploymentServesAll r o.deployment)
  ready_iff r o v =
      let iff = said_true _ r.meta.generation (build-Reports laws now r o v).says_ready in
      elim (Bool-cases v.valid) [
        | inl e ↦
            let served = table-ready r o.deployment _ in
            (λ h. (e, served.0 (rw e at (iff.0 h))), λ h. iff.1 (rw e (served.1 h.1)))
        | inr e ↦ (λ h. absurd (ground (arith, rw e at (iff.0 h))), λ h. cc)
      ]

  -- Degraded holds exactly when the references are not valid, or the Deployment exists, replicas are
  -- wanted, and a failure is found.
  -- Conditions are set and found as the library documents it.
  pub degraded_iff :
      (r : TrussiumRuntime) (o : RuntimeObservation) (v : ReferenceValidationResult)
      → Says r o v "Degraded" cond_true
        ↔ ((v.valid ≡ false) ⊎ ((v.valid ≡ true) × DeploymentHasFailed r o.deployment))
  degraded_iff r o v =
      let iff = said_true _ r.meta.generation (build-Reports laws now r o v).says_degraded in
      elim (Bool-cases v.valid) [
        | inl e ↦
            let failed = table-degraded r o.deployment _ in
            (
              λ h. inr (e, failed.0 (rw e at (iff.0 h))),
              elim [ inl n ↦ absurd (cc) | inr f ↦ iff.1 (rw e (failed.1 f.1)) ],
            )
        | inr e ↦ (λ h. inl e, λ h. iff.1 (rw e))
      ]

  -- A runtime that is ready has a valid configuration, is not progressing and is not degraded.
  -- Conditions are set and found as the library documents it.
  pub ready_excludes :
      (r : TrussiumRuntime) (o : RuntimeObservation) (v : ReferenceValidationResult)
      → Says r o v "Ready" cond_true
      → Says r o v "ConfigurationValid" cond_true
        × Says r o v "Progressing" cond_false
        × Says r o v "Degraded" cond_false
  ready_excludes r o v h =
      let all = build-Reports laws now r o v in
      let t =
        table-ready_excludes (phase r o v.valid) _
          ((said_true _ r.meta.generation all.says_ready).0 h) in
      (all.says_valid ∙ rw t.0, all.says_progressing ∙ rw t.1, all.says_degraded ∙ rw t.2)
