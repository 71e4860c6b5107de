-- ===== src/Status/Build/Settled.antt =====
-- A reconciliation that observes the same again computes the status that is stored: buildRuntimeStatus
-- and buildReconciliationFailureStatus followed by preserveRuntimeConditionTransitionTimes.
use trussium_operator.Prelude.{ℕ, ◌≡◌, ◌≢◌, refl, sym, ap, subst, ◌∙◌, false, List, [], map}
use trussium_operator.Kube.Condition.{Condition, ConditionApi, IsConditionApi, SetsInPlace}
use trussium_operator.Kube.Errors.{Error}
use trussium_operator.Api.{TrussiumRuntime, TrussiumRuntimeStatus}
use trussium_operator.Resources.Identity.{runtime_image}
use trussium_operator.Status.Constants.{condition_type_upgrading}
use trussium_operator.Status.References.{ReferenceValidationResult, valid_reference_validation}
use trussium_operator.Status.Rollout.{RuntimeObservation}
use trussium_operator.Status.Conditions.{preserve_runtime_condition_transition_times}
use trussium_operator.Status.Conditions.Times.{HasUniqueTypes}
use trussium_operator.Status.Conditions.Upsert.{applied-AllOnce, AllOnce, holds}
use trussium_operator.Status.Conditions.Timeless.{
  bare, timeless, bare-preserve_times, bare-AllOnce, AllOnce-bare, restored_status,
}
use trussium_operator.Status.Build.{build_runtime_status, build_reconciliation_failure_status}
use trussium_operator.Status.Build.Refinement.{
  all_writes, status_from, status_from_again, failure_writes, timeless-build_at,
  timeless-failure_at,
}

-- The status that is stored, when a status `desired` is to be stored.
abbrev pub kept : ConditionApi → TrussiumRuntime → TrussiumRuntimeStatus → TrussiumRuntimeStatus
kept m r desired = preserve_runtime_condition_transition_times m r.status desired

module _ {m : ConditionApi} (laws : IsConditionApi m) (inplace : SetsInPlace m) where
  settled :
      (r : TrussiumRuntime) (o : RuntimeObservation) (v : ReferenceValidationResult)
      (failure : List Condition) (desired again : TrussiumRuntimeStatus)
      → HasUniqueTypes m r.status.conditions
      → runtime_image r.spec.image ≢ ""
      → holds condition_type_upgrading failure ≡ false
      → timeless desired
        ≡ status_from r o v failure r.status.last_successful_image (map bare r.status.conditions)
      → (let s = kept m r desired in
          timeless again
          ≡ status_from r o v failure s.last_successful_image (map bare s.conditions))
      → kept m (record r { status = kept m r desired }) again ≡ kept m r desired
  unfolding preserve_runtime_condition_transition_times
  settled r o v failure desired again once named quiet e e' =
      let last = r.status.last_successful_image in
      let cs = map bare r.status.conditions in
      let out = status_from r o v failure last cs in
      let kept_is : timeless (kept m r desired) ≡ out =
        ap (λ l. record desired { conditions = l })
          (bare-preserve_times laws inplace r.status.conditions desired.conditions)
        ∙ e in
      restored_status laws inplace (kept m r desired) again
        (AllOnce-bare laws inplace (kept m r desired).conditions (
          subst AllOnce (sym (ap (λ (t : TrussiumRuntimeStatus). t.conditions) kept_is)) (
            applied-AllOnce (all_writes r o v failure last cs) cs
              (bare-AllOnce laws inplace r.status.conditions once))))
        (e'
          ∙ (ap
                (λ (t : TrussiumRuntimeStatus).
                  status_from r o v failure t.last_successful_image t.conditions)
                kept_is
              ∙ (status_from_again r o v failure quiet last cs named ∙ sym kept_is)))

module _ {m : ConditionApi} (laws : IsConditionApi m) (inplace : SetsInPlace m)
    (now later : ℕ) where
  -- When a status has been stored, and the same specification, generation, observation and
  -- references are found at a later instant, the status that is built and given the kept transition
  -- times is the stored one, times included. No condition type stands twice in the status before,
  -- and the image has a name.
  -- Conditions are set and found as the library documents it, in place or at the end.
  pub build_settles :
      (r : TrussiumRuntime) (o : RuntimeObservation) (v : ReferenceValidationResult)
      → HasUniqueTypes m r.status.conditions
      → runtime_image r.spec.image ≢ ""
      → let stored = kept m r (build_runtime_status m now r o v) in
        let r' = record r { status = stored } in
        kept m r' (build_runtime_status m later r' o v) ≡ stored
  build_settles r o v once named =
      settled laws inplace r o v [] (build_runtime_status m now r o v)
        (build_runtime_status m later
          (record r { status = kept m r (build_runtime_status m now r o v) }) o v)
        once named refl (timeless-build_at laws inplace now r r.status o v)
        (timeless-build_at laws inplace later r (kept m r (build_runtime_status m now r o v)) o v)

  -- The same for a reconciliation that fails again with the same error: though Ready and Degraded are
  -- first written as observed and then as failed, the stored status is built again, times included.
  -- Conditions are set and found as the library documents it, in place or at the end.
  pub failure_settles :
      (r : TrussiumRuntime) (o : RuntimeObservation) (e : Error)
      → HasUniqueTypes m r.status.conditions
      → runtime_image r.spec.image ≢ ""
      → let stored = kept m r (build_reconciliation_failure_status m now r o e) in
        let r' = record r { status = stored } in
        kept m r' (build_reconciliation_failure_status m later r' o e) ≡ stored
  failure_settles r o e once named =
      let failed = build_reconciliation_failure_status m now r o e in
      settled laws inplace r o valid_reference_validation (failure_writes r e) failed
        (build_reconciliation_failure_status m later (record r { status = kept m r failed }) o e)
        once named refl (timeless-failure_at laws inplace now r r.status o e)
        (timeless-failure_at laws inplace later r (kept m r failed) o e)
