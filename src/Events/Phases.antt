-- ===== src/Events/Phases.antt =====
-- The Events of a reconciliation, as the phase of the runtime causes them.
use trussium_operator.Prelude.{
  ℕ, ◌≡◌, refl, String, Bool, true, false, not, ◌&&◌, ◌==◌, ◌++◌, Option, none, some, List, [],
  arith, if◌then◌else◌,
}
use trussium_operator.Prelude.Int.{ℤ}
use trussium_operator.Kube.Condition.{cond_true, Condition, ConditionApi, IsConditionApi}
use trussium_operator.Api.{TrussiumRuntime, TrussiumRuntimeStatus}
use trussium_operator.Status.References.{ReferenceValidationResult}
use trussium_operator.Status.Rollout.{RuntimeObservation}
use trussium_operator.Status.Conditions.{runtime_condition, condition_changed}
use trussium_operator.Status.Conditions.Lookup.{verdict, read, said}
use trussium_operator.Status.Base.{available_count}
use trussium_operator.Status.Base.Outcome.{Truths, truth, table, is_serving}
use trussium_operator.Status.Base.Phases.{phase, wanted}
use trussium_operator.Status.Build.{build_runtime_status}
use trussium_operator.Status.Build.Meaning.{build-Reports}
use trussium_operator.Events.{
  Event, EventType, eventf, normal, warning, has_status, message_of, reason_of,
  record_configuration_transition, record_degraded_transition, record_progressing_transition,
  record_ready_transition, record_upgrade_transition, record_status_transition_events,
}

-- What holds after the reconciliation, by the table of phases.
abbrev pub truths : TrussiumRuntime → RuntimeObservation → Bool → Truths
truths r o valid =
    table (phase r o valid) (is_serving (wanted r o valid) (available_count o.deployment))

said_of :
    (o : Option Condition) (b : Bool) (g : ℤ)
    → said (verdict o) ≡ some (truth b, g)
    → (c : Condition) × (o ≡ some c) × (c.status ≡ truth b)
said_of none b g e = cc
said_of (some c) b g e = (c, refl, ground (arith, e))

module _ (m : ConditionApi) (r : TrussiumRuntime) (previous current : TrussiumRuntimeStatus) where
  -- The message of a condition afterwards.
  abbrev pub note_of : String → String
  note_of t = message_of (runtime_condition m current t)

  -- An Event if `b`, and the condition of type `t` has changed its status or reason.
  abbrev pub if_changed : Bool → String → EventType → String → String → List Event
  if_changed b t type reason action =
      if b && condition_changed m previous current t
      then eventf r type reason action (note_of t)
      else []

  abbrev pub degradation : Bool → List Event
  degradation true = if_changed true "Degraded" warning "RuntimeDegraded" "ObserveRuntime"
  degradation false =
      if has_status cond_true (runtime_condition m previous "Degraded")
      then eventf r normal "RuntimeRecovered" "ObserveRuntime" (note_of "Degraded")
      else []

  abbrev pub ready_reason : String
  ready_reason =
      if reason_of (runtime_condition m current "Ready") == "ScaledToZero"
      then "RuntimeScaledToZero"
      else "RuntimeReady"

  degraded_events_of :
      (b : Bool) (c : Condition)
      → runtime_condition m current "Degraded" ≡ some c
      → c.status ≡ truth b
      → record_degraded_transition m r previous current ≡ degradation b
  unfolding record_degraded_transition condition_changed
  degraded_events_of true c found e = rw (found, e) (ground arith)
  degraded_events_of false c found e = rw (found, e) (ground arith)

  configuration_events_of :
      (b : Bool) (c : Condition)
      → runtime_condition m current "ConfigurationValid" ≡ some c
      → c.status ≡ truth b
      → record_configuration_transition m r previous current
        ≡ if_changed
            (not b)
            "ConfigurationValid"
            warning
            "ConfigurationInvalid"
            "ValidateConfiguration"
  unfolding record_configuration_transition condition_changed
  configuration_events_of true c found e = rw (found, e) (ground arith)
  configuration_events_of false c found e = rw (found, e) (ground arith)

  progressing_events_of :
      (b : Bool) (c : Condition)
      → runtime_condition m current "Progressing" ≡ some c
      → c.status ≡ truth b
      → record_progressing_transition m r previous current
        ≡ if_changed b "Progressing" normal "RuntimeProgressing" "ReconcileRuntime"
  unfolding record_progressing_transition condition_changed
  progressing_events_of true c found e = rw (found, e) (ground arith)
  progressing_events_of false c found e = rw (found, e) (ground arith)

  ready_events_of :
      (b : Bool) (c : Condition)
      → runtime_condition m current "Ready" ≡ some c
      → c.status ≡ truth b
      → record_ready_transition m r previous current
        ≡ if_changed b "Ready" normal ready_reason "ObserveRuntime"
  unfolding record_ready_transition condition_changed
  ready_events_of true c found e = rw (found, e) (ground arith)
  ready_events_of false c found e = rw (found, e) (ground arith)

module _ {m : ConditionApi} (laws : IsConditionApi m) (now : ℕ) where
  -- The Events of a reconciliation that builds a status, in order, by the table of phases. An invalid
  -- configuration, progress, and readiness or a scale to zero are announced when they hold and the
  -- condition's status or reason has changed, an upgrade by its own rule. A degraded runtime is
  -- announced on such a change too, and a recovery exactly when Degraded held before and does not
  -- now. Each Event but the upgrade's carries its condition's message.
  -- Conditions are set and found as the library documents it.
  pub transition_events-build :
      (r : TrussiumRuntime) (o : RuntimeObservation) (v : ReferenceValidationResult)
      (previous : TrussiumRuntimeStatus)
      → let s = build_runtime_status m now r o v in
        let t = truths r o v.valid in
        record_status_transition_events m r previous s true
        ≡ if_changed m r previous s
            (not t.configuration_valid)
            "ConfigurationValid"
            warning
            "ConfigurationInvalid"
            "ValidateConfiguration"
          ++ (record_upgrade_transition m r previous s
              ++ (degradation m r previous s t.degraded
                  ++ (if_changed m r previous s t.progressing "Progressing" normal
                        "RuntimeProgressing" "ReconcileRuntime"
                      ++ if_changed m r previous s t.ready "Ready" normal
                          (ready_reason m r previous s)
                          "ObserveRuntime")))
  unfolding record_status_transition_events read
  transition_events-build r o v previous =
      let s = build_runtime_status m now r o v in
      let t = truths r o v.valid in
      let g = r.meta.generation in
      let says = build-Reports laws now r o v in
      let (c1, f1, e1) =
        said_of (runtime_condition m s "ConfigurationValid") t.configuration_valid g
          says.says_valid in
      let (c2, f2, e2) =
        said_of (runtime_condition m s "Degraded") t.degraded g says.says_degraded in
      let (c3, f3, e3) =
        said_of (runtime_condition m s "Progressing") t.progressing g says.says_progressing in
      let (c4, f4, e4) = said_of (runtime_condition m s "Ready") t.ready g says.says_ready in
      rw (
        configuration_events_of m r previous s t.configuration_valid c1 f1 e1,
        degraded_events_of m r previous s t.degraded c2 f2 e2,
        progressing_events_of m r previous s t.progressing c3 f3 e3,
        ready_events_of m r previous s t.ready c4 f4 e4,
      )
