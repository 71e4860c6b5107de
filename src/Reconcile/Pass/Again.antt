-- ===== src/Reconcile/Pass/Again.antt =====
-- A pass over a runtime whose stored status is the one that an earlier pass computed.
use trussium_operator.Prelude.{
  ℕ, ◌≡◌, ◌≢◌, ◌↔◌, sym, ap, subst, ◌∙◌, true, false, Option, none, some, ◌++◌, arith, is_some,
}
use mathlib.Core.List.{append-nil}
use trussium_operator.Kube.Condition.{IsConditionApi, SetsInPlace}
use trussium_operator.Kube.Errors.{Error, Result, ok}
use trussium_operator.Api.{TrussiumRuntime, TrussiumRuntimeStatus}
use trussium_operator.Resources.Identity.{runtime_image}
use trussium_operator.Status.References.{ReferenceValidationResult}
use trussium_operator.Status.Rollout.{RuntimeObservation}
use trussium_operator.Status.Conditions.{copy_runtime_status}
use trussium_operator.Status.Conditions.Times.{HasUniqueTypes}
use trussium_operator.Status.Build.{build_runtime_status, build_reconciliation_failure_status}
use trussium_operator.Status.Build.Settled.{build_settles, failure_settles}
use trussium_operator.Events.{record_reconciliation_failure}
use trussium_operator.Reconcile.Platform.{Platform}
use trussium_operator.Reconcile.Monad.{World}
use trussium_operator.Reconcile.Load.{validate_secret_references, load_runtime_observation}
use trussium_operator.Reconcile.Load.Reading.{validate-Silent, validate-valid, load-Silent}
use trussium_operator.Reconcile.Resources.{reconcile_core_resources}
use trussium_operator.Reconcile.Resources.Order.{plan, core_resources-Follows}
use trussium_operator.Reconcile.Update.{Updated, normalized, with_status, update_runtime_status}
use trussium_operator.Reconcile.Pass.{
  finish, finish_failure, observed_or_empty, joined, report_observed, after_resources,
  after_validation, handle_reconciliation_failure, reconcile_runtime,
}
use trussium_operator.Reconcile.Pass.Effects.{either}
use trussium_operator.Reconcile.Pass.Complete.{whole-if-ok}

-- equality.Semantic.DeepEqual on statuses is equality.
abbrev pub IsEquality : Platform → Type 0
IsEquality p = (s t : TrussiumRuntimeStatus) → (p.deep_equal s t ≡ true) ↔ (s ≡ t)

module _ (p : Platform) (equal : IsEquality p) where
  -- A status that is already stored is not sent.
  update-stored :
      (r : TrussiumRuntime) (desired : TrussiumRuntimeStatus) (w : World p.Cluster)
      → normalized p r desired ≡ r.status
      → update_runtime_status p r desired w
        ≡ (record { runtime = r; status_updated = false; error = none }, w)
  unfolding update_runtime_status
  update-stored r desired w same = rw ((equal r.status (normalized p r desired)).1 (sym same))

  observed-stored :
      (r : TrussiumRuntime) (previous : TrussiumRuntimeStatus) (v : ReferenceValidationResult)
      (o : RuntimeObservation) (x : Result RuntimeObservation) (w : World p.Cluster)
      → normalized p r (build_runtime_status p.conditions p.now r o v) ≡ r.status
      → x ≡ ok o
      → report_observed p r previous v x w ≡ (none, w)
  observed-stored r previous v o x w same found =
      subst (λ y. report_observed p r previous v y w ≡ (none, w)) (sym found)
        (ap (λ (out : Updated × World p.Cluster). finish p previous out.0 out.1)
            (update-stored r (build_runtime_status p.conditions p.now r o v) w same)
          ∙ ap (λ l. (none, record w { events = l })) (append-nil w.events))

  resources-stored :
      (r : TrussiumRuntime) (previous : TrussiumRuntimeStatus) (v : ReferenceValidationResult)
      (o : RuntimeObservation) (x : Result (Unit {0})) (w : World p.Cluster)
      → normalized p r (build_runtime_status p.conditions p.now r o v) ≡ r.status
      → x ≡ ok tt
      → (load_runtime_observation p r w).0 ≡ ok o
      → after_resources p r previous v x w ≡ (none, (load_runtime_observation p r w).1)
  resources-stored r previous v o x w same done found =
      subst (λ y. after_resources p r previous v y w ≡ (none, (load_runtime_observation p r w).1))
        (sym done) (observed-stored r previous v o _ (load_runtime_observation p r w).1 same found)

  validation-stored :
      (r : TrussiumRuntime) (previous : TrussiumRuntimeStatus) (v : ReferenceValidationResult)
      (o : RuntimeObservation) (x : Option Error) (w : World p.Cluster)
      → normalized p r (build_runtime_status p.conditions p.now r o v) ≡ r.status
      → v.valid ≡ true
      → x ≡ none
      → (let (result, w') = reconcile_core_resources p r w in
          (result ≡ ok tt) × ((load_runtime_observation p r w').0 ≡ ok o))
      → after_validation p r previous v x w
        ≡ (none, (load_runtime_observation p r (reconcile_core_resources p r w).1).1)
  validation-stored r previous v o (some e) w same valid h (done, found) = cc
  validation-stored r previous v o none w same valid h (done, found) =
      either
        (λ out. out ≡ (none, (load_runtime_observation p r (reconcile_core_resources p r w).1).1))
        v.valid _ _ w
        (λ g. resources-stored r previous v o _ (reconcile_core_resources p r w).1 same done found)
        (λ g. cc)

  -- The world when the managed objects have been written and observed.
  abbrev pub served_world : TrussiumRuntime → World p.Cluster → World p.Cluster
  served_world r w =
      let (v, w1) = validate_secret_references p r w in
      (load_runtime_observation p r (reconcile_core_resources p r w1).1).1

  -- The objects are written and then observed as `o`.
  abbrev pub Serves : TrussiumRuntime → World p.Cluster → RuntimeObservation → Type 0
  Serves r w o =
      let (v, w1) = validate_secret_references p r w in
      let (result, w2) = reconcile_core_resources p r w1 in
      (v.valid ≡ true) × (result ≡ ok tt) × ((load_runtime_observation p r w2).0 ≡ ok o)

  pub pass-stored :
      (r : TrussiumRuntime) (o : RuntimeObservation) (w : World p.Cluster)
      → (let v = (validate_secret_references p r w).0 in
          normalized p r (build_runtime_status p.conditions p.now r o v) ≡ r.status)
      → r.meta.deletion_timestamp ≡ none
      → Serves r w o
      → reconcile_runtime p r w ≡ (none, served_world r w)
  unfolding reconcile_runtime
  pass-stored r o w same alive (valid, done, found) =
      either (λ out. out ≡ (none, served_world r w)) (is_some r.meta.deletion_timestamp) _ _ w
        (λ d. ground (arith, alive, d))
        (λ d.
          validation-stored r (copy_runtime_status r.status) (validate_secret_references p r w).0 o
            _ (validate_secret_references p r w).1 same valid (validate-valid p r w valid)
            (done, found))

  pub served-writes :
      (r : TrussiumRuntime) (o : RuntimeObservation) (w : World p.Cluster)
      → Serves r w o
      → ((served_world r w).writes ≡ w.writes ++ plan r) × ((served_world r w).events ≡ w.events)
  served-writes r o w (valid, done, found) =
      let (v, w1) = validate_secret_references p r w in
      let (result, w2) = reconcile_core_resources p r w1 in
      let (before_writes, before_events) = validate-Silent p r w in
      let (after_writes, after_events) = load-Silent p r w2 in
      let (made, rest, whole, wrote, silent, complete) = core_resources-Follows p r w1 in
      (
        after_writes ∙ (whole-if-ok p r w1 done ∙ ap (λ l. l ++ plan r) before_writes),
        after_events ∙ (silent ∙ before_events),
      )

  -- What handleReconciliationFailure does after the observation, and the world that it leaves.
  abbrev after_load :
      TrussiumRuntime
      → TrussiumRuntimeStatus
      → Error
      → Result RuntimeObservation
      → World p.Cluster
      → Option Error × World p.Cluster
  after_load r previous e x w =
      let (u, w') =
        update_runtime_status p r
          (build_reconciliation_failure_status p.conditions p.now r (observed_or_empty x)
            (joined e x))
          w in
      finish_failure p previous (joined e x) u w'

  failure-stored :
      (r : TrussiumRuntime) (previous : TrussiumRuntimeStatus) (e : Error) (o : RuntimeObservation)
      (w : World p.Cluster)
      → normalized p r (build_reconciliation_failure_status p.conditions p.now r o e) ≡ r.status
      → (load_runtime_observation p r w).0 ≡ ok o
      → let w1 = (load_runtime_observation p r w).1 in
        handle_reconciliation_failure p r previous e w
        ≡ (some e, record w1 { events = w1.events ++ record_reconciliation_failure r e p.recorder })
  unfolding handle_reconciliation_failure
  failure-stored r previous e o w same found =
      let w1 = (load_runtime_observation p r w).1 in
      ap (λ x. after_load r previous e x w1) found
      ∙ (ap (λ (out : Updated × World p.Cluster). finish_failure p previous e out.0 out.1)
            (update-stored r (build_reconciliation_failure_status p.conditions p.now r o e) w1 same)
          ∙ ap
              (λ l.
                (some e, record w1 { events = l ++ record_reconciliation_failure r e p.recorder }))
              (append-nil w1.events))

  module _ (laws : IsConditionApi p.conditions) (inplace : SetsInPlace p.conditions) (earlier : ℕ)
      (r : TrussiumRuntime) (o : RuntimeObservation)
      (once : HasUniqueTypes p.conditions r.status.conditions)
      (named : runtime_image r.spec.image ≢ "") where
    -- Nothing is left to do: where an earlier pass stored the status of an observation, and a pass
    -- over the runtime finds the same references, writes the objects and observes the same again, it
    -- returns no error, makes the plan's writes and no status update, and emits no Event.
    -- The runtime is not being deleted, its image has a name, and no condition type stood twice.
    -- Conditions are set and found as the library documents it, in place or at the end, and
    -- semantic equality is equality of statuses.
    pub pass_again :
        (w : World p.Cluster) (v : ReferenceValidationResult)
        → let r' =
            with_status r (normalized p r (build_runtime_status p.conditions earlier r o v)) in
          r.meta.deletion_timestamp ≡ none
          → (validate_secret_references p r' w).0 ≡ v
          → Serves r' w o
          → let out = reconcile_runtime p r' w in
            (out.0 ≡ none) × (out.1.writes ≡ w.writes ++ plan r') × (out.1.events ≡ w.events)
    pass_again w v alive checked serves =
        let r' = with_status r (normalized p r (build_runtime_status p.conditions earlier r o v)) in
        let same = build_settles laws inplace earlier p.now r o v once named in
        let done =
          pass-stored r' o w
            (subst
              (λ x. normalized p r' (build_runtime_status p.conditions p.now r' o x) ≡ r'.status)
              (sym checked) same)
            alive serves in
        let (wrote, silent) = served-writes r' o w serves in
        (
          ap (λ (x : Option Error × World p.Cluster). x.0) done,
          ap (λ (x : Option Error × World p.Cluster). x.1.writes) done ∙ wrote,
          ap (λ (x : Option Error × World p.Cluster). x.1.events) done ∙ silent,
        )

    -- A failure that goes on: where an earlier reconciliation stored the status of an error and an
    -- observation, the same error with the same observation is returned again, no call that writes
    -- is made, and the Event of the failure is emitted and no other.
    -- The runtime's image has a name, and no condition type stood twice. Conditions are set and found
    -- as the library documents it, in place or at the end, and semantic equality is equality of
    -- statuses.
    pub failure_again :
        (w : World p.Cluster) (e : Error)
        → let r' =
            with_status r
              (normalized p r (build_reconciliation_failure_status p.conditions earlier r o e)) in
          (load_runtime_observation p r' w).0 ≡ ok o
          → let out = handle_reconciliation_failure p r' r'.status e w in
            (out.0 ≡ some e)
            × (out.1.writes ≡ w.writes)
            × (out.1.events ≡ w.events ++ record_reconciliation_failure r' e p.recorder)
    failure_again w e found =
        let r' =
          with_status r
            (normalized p r (build_reconciliation_failure_status p.conditions earlier r o e)) in
        let done =
          failure-stored r' r'.status e o w
            (failure_settles laws inplace earlier p.now r o e once named) found in
        let (wrote, silent) = load-Silent p r' w in
        (
          ap (λ (x : Option Error × World p.Cluster). x.0) done,
          ap (λ (x : Option Error × World p.Cluster). x.1.writes) done ∙ wrote,
          ap (λ (x : Option Error × World p.Cluster). x.1.events) done
              ∙ ap (λ l. l ++ record_reconciliation_failure r' e p.recorder) silent,
        )
