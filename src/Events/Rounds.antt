-- ===== src/Events/Rounds.antt =====
-- A sequence of reconciliations of one specification: the status that each stores, as reconcileRuntime
-- and handleReconciliationFailure build it, and the Events that it emits.
use trussium_operator.Prelude.{
  ℕ, ◌≡◌, ◌∙◌, refl, ap, inl, inr, Bool, Option, List, [], ◌∷◌, ◌++◌, Bool-cases, Option-cases,
  if◌then◌else◌,
}
use trussium_operator.Kube.Condition.{Condition, ConditionApi, IsConditionApi, status_eqb}
use trussium_operator.Kube.Errors.{Error}
use trussium_operator.Api.{TrussiumRuntime, TrussiumRuntimeStatus}
use trussium_operator.Resources.Identity.{runtime_image}
use trussium_operator.Status.References.{ReferenceValidationResult, valid_reference_validation}
use trussium_operator.Status.Rollout.{RuntimeObservation}
use trussium_operator.Status.Conditions.{
  runtime_condition, condition_changed, set_runtime_condition,
  preserve_runtime_condition_transition_times,
}
use trussium_operator.Status.Conditions.Times.{preserved, preserve-runtime_condition}
use trussium_operator.Status.Build.{build_runtime_status, build_reconciliation_failure_status}
use trussium_operator.Status.Build.History.{rolled_out, build-last, build_failure-last}
use trussium_operator.Events.{Event, record_status_transition_events, record_upgrade_transition}

-- One reconciliation: the instant, and what it observes, or observes and fails with.
pub data Round : Type 0 where
  observed : ℕ → RuntimeObservation → ReferenceValidationResult → Round
  failed : ℕ → RuntimeObservation → Error → Round

-- What a reconciliation observes.
abbrev pub seen : Round → RuntimeObservation
seen (observed now o v) = o
seen (failed now o e) = o

module _ (r : TrussiumRuntime) where
  abbrev pub at : TrussiumRuntimeStatus → TrussiumRuntime
  at s = record r { status = s }

module _ (m : ConditionApi) (r : TrussiumRuntime) where
  -- The status that a reconciliation builds on the stored one.
  abbrev pub built : Round → TrussiumRuntimeStatus → TrussiumRuntimeStatus
  built (observed now o v) s = build_runtime_status m now (at r s) o v
  built (failed now o e) s = build_reconciliation_failure_status m now (at r s) o e

  -- The status that is stored then.
  abbrev pub stored : Round → TrussiumRuntimeStatus → TrussiumRuntimeStatus
  stored x s = preserve_runtime_condition_transition_times m s (built x s)

  abbrev pub events : Bool → Round → TrussiumRuntimeStatus → List Event
  events recorder x s = record_status_transition_events m (at r s) s (stored x s) recorder

  -- The Events of a sequence of reconciliations.
  abbrev pub all_events : Bool → List Round → TrussiumRuntimeStatus → List Event
  all_events recorder [] s = []
  all_events recorder (x ∷ rest) s = events recorder x s ++ all_events recorder rest (stored x s)

-- The upgrade's Event does not see times, and depends on the Upgrading condition and the images only.
upgrade_congr :
    (m : ConditionApi) (r : TrussiumRuntime) (previous s t : TrussiumRuntimeStatus)
    (old : Option Condition)
    → t.desired_image ≡ s.desired_image
    → runtime_condition m t "Upgrading" ≡ preserved old (runtime_condition m s "Upgrading")
    → record_upgrade_transition m r previous t ≡ record_upgrade_transition m r previous s
unfolding record_upgrade_transition condition_changed
upgrade_congr m r previous s t old e f = elim (Option-cases (runtime_condition m s "Upgrading")) [
  | inl g ↦ rw (e, f, g)
  | inr (c, g) ↦ elim (Option-cases old) [
    | inl o ↦ rw (e, f, g, o)
    | inr (d, o) ↦ elim (Bool-cases (status_eqb d.status c.status)) [
      | inl h ↦
          rw (e, f, g, o, h)
            (elim (Option-cases (runtime_condition m previous "Upgrading")) [
              | inl k ↦ rw k
              | inr (p, k) ↦ rw k
            ])
      | inr h ↦ rw (e, f, g, o, h)
    ]
  ]
]

module _ {m : ConditionApi} (laws : IsConditionApi m) (r : TrussiumRuntime) where
  failure-upgrade :
      (now : ℕ) (o : RuntimeObservation) (e : Error) (s : TrussiumRuntimeStatus)
      → (let b = build_runtime_status m now (at r s) o valid_reference_validation in
          let f = build_reconciliation_failure_status m now (at r s) o e in
          (f.desired_image ≡ b.desired_image)
          × (runtime_condition m f "Upgrading" ≡ runtime_condition m b "Upgrading"))
  unfolding build_reconciliation_failure_status set_runtime_condition
  failure-upgrade now o e s = (refl, rw (laws.find-set, laws.find-set, laws.find-set))

  pub built-last :
      (x : Round) (s : TrussiumRuntimeStatus)
      → (stored m r x s).last_successful_image ≡ (
          if rolled_out (at r s) (seen x)
          then runtime_image r.spec.image
          else s.last_successful_image)
  unfolding preserve_runtime_condition_transition_times
  built-last (observed now o v) s = build-last m now (at r s) o v
  built-last (failed now o e) s = build_failure-last m now (at r s) o e

  -- The upgrade's Event of a reconciliation is that of a successful one with the same observation.
  pub upgrade-stored :
      (x : Round) (s : TrussiumRuntimeStatus)
      → (now : ℕ) × (v : ReferenceValidationResult) × (record_upgrade_transition m
            (at r s)
            s
            (stored m r x s)
          ≡ record_upgrade_transition m (at r s) s (build_runtime_status m now (at r s) (seen x) v))
  upgrade-stored (observed now o v) s = (
    now,
    v,
    upgrade_congr m (at r s) s (build_runtime_status m now (at r s) o v)
        (stored m r (observed now o v) s) (runtime_condition m s "Upgrading")
        (unfold preserve_runtime_condition_transition_times in refl)
        ((preserve-runtime_condition laws s (build_runtime_status m now (at r s) o v)
          "Upgrading").1),
  )
  upgrade-stored (failed now o e) s =
      let b = build_runtime_status m now (at r s) o valid_reference_validation in
      let f = build_reconciliation_failure_status m now (at r s) o e in
      let (d, c) = failure-upgrade now o e s in
      (
        now,
        valid_reference_validation,
        upgrade_congr m (at r s) s b (stored m r (failed now o e) s)
            (runtime_condition m s "Upgrading")
            (unfold preserve_runtime_condition_transition_times in d)
            ((preserve-runtime_condition laws s f "Upgrading").1
              ∙ ap (preserved (runtime_condition m s "Upgrading")) c),
      )
