-- ===== src/Events/Transitions.antt =====
-- When the operator emits Events.
use trussium_operator.Prelude.{
  ℕ, ◌≡◌, ◌≢◌, ◌∙◌, String, Bool, true, false, Option, none, some, [], arith, Bool-cases, inl, inr,
}
use trussium_operator.Kube.Condition.{Condition, ConditionApi, IsConditionApi, cond_true}
use trussium_operator.Api.{TrussiumRuntime, TrussiumRuntimeStatus}
use trussium_operator.Status.References.{ReferenceValidationResult}
use trussium_operator.Status.Rollout.{RuntimeObservation}
use trussium_operator.Status.Conditions.{runtime_condition, condition_changed}
use trussium_operator.Status.Conditions.Lookup.{verdict, read, said}
use trussium_operator.Prelude.Int.{ℤ}
use trussium_operator.Status.Base.{available_count}
use trussium_operator.Status.Base.Outcome.{truth, table, is_serving}
use trussium_operator.Status.Base.Phases.{phase, wanted}
use trussium_operator.Status.Build.{build_runtime_status}
use trussium_operator.Status.Build.Meaning.{DeploymentServesAll, ready_iff, build-Reports}
use trussium_operator.Events.{
  has_status, record_configuration_transition, record_degraded_transition,
  record_progressing_transition, record_ready_transition, record_upgrade_transition,
  record_status_transition_events,
}

module _ (m : ConditionApi) (r : TrussiumRuntime) (previous current : TrussiumRuntimeStatus) where
  -- Where no condition's status or reason has changed, no Event is emitted.
  pub unchanged-no_events :
      (recorder : Bool)
      → ((t : String) → condition_changed m previous current t ≡ false)
      → record_status_transition_events m r previous current recorder ≡ []
  unfolding record_status_transition_events record_configuration_transition
      record_degraded_transition record_progressing_transition record_ready_transition
      record_upgrade_transition
  unchanged-no_events recorder same =
      rw
        (
          same "ConfigurationValid",
          same "Upgrading",
          same "Degraded",
          same "Progressing",
          same "Ready",
        )
        (ground arith)

has_status_of_said :
    (o : Option Condition) (b : Bool) (g : ℤ)
    → said (verdict o) ≡ some (truth b, g)
    → has_status cond_true o ≡ b
has_status_of_said none b g e = cc
has_status_of_said (some c) true g e = ground arith
has_status_of_said (some c) false g e = ground arith

module _ {m : ConditionApi} (laws : IsConditionApi m) (now : ℕ) where
  -- A runtime is announced as ready or as scaled to zero only if its references are valid and its
  -- Deployment serves all the wanted replicas.
  -- Conditions are set and found as the library documents it.
  pub ready_event-served :
      (r : TrussiumRuntime) (o : RuntimeObservation) (v : ReferenceValidationResult)
      (previous : TrussiumRuntimeStatus)
      → record_ready_transition m r previous (build_runtime_status m now r o v) ≢ []
      → (v.valid ≡ true) × DeploymentServesAll r o.deployment
  unfolding record_ready_transition read
  ready_event-served r o v previous some_event =
      let s = build_runtime_status m now r o v in
      let said_ready = (build-Reports laws now r o v).says_ready in
      let h = has_status_of_said (runtime_condition m s "Ready") _ r.meta.generation said_ready in
      elim (Bool-cases
        (table (phase r o v.valid)
          (is_serving (wanted r o v.valid) (available_count o.deployment))).ready) [
            | inl e ↦ (ready_iff laws now r o v).0 (said_ready ∙ rw e)
            | inr e ↦ absurd (some_event (ground (arith, h ∙ e)))
          ]
