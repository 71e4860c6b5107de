-- ===== src/Reconcile/Pass.antt =====
-- Reconcile, reconcileInvalidConfiguration and handleReconciliationFailure of
-- internal/controller/trussiumruntime_controller.go. Every path returns an empty ctrl.Result, so a
-- pass returns its error alone.
pub mod Effects
pub mod Outcome
pub mod Complete
pub mod Willing
pub mod Success
pub mod Again
pub mod Restores
pub mod Leaves
pub mod Twice
use trussium_operator.Prelude.{
  ℕ, ◌+◌, Bool, true, false, Option, none, some, List, [], ◌∷◌, ◌++◌, if◌then◌else◌, is_some,
}
use trussium_operator.Kube.{NamespacedName}
use trussium_operator.Kube.Errors.{Error, Result, ok, err, join}
use trussium_operator.Api.{TrussiumRuntime, TrussiumRuntimeStatus}
use trussium_operator.Status.References.{ReferenceValidationResult}
use trussium_operator.Status.Rollout.{RuntimeObservation}
use trussium_operator.Status.Build.{build_runtime_status, build_reconciliation_failure_status}
use trussium_operator.Status.Conditions.{copy_runtime_status}
use trussium_operator.Events.{Event, record_status_transition_events, record_reconciliation_failure}
use trussium_operator.Reconcile.Platform.{Platform}
use trussium_operator.Reconcile.Monad.{World, M, ◌>>=◌, ◌>>◌, pure, reading, emit}
use trussium_operator.Reconcile.Load.{validate_secret_references, load_runtime_observation}
use trussium_operator.Reconcile.Resources.{reconcile_core_resources}
use trussium_operator.Reconcile.Update.{Updated, update_runtime_status}

-- An observation that could not be read is empty, and its error is joined to the first.
abbrev pub observed_or_empty : Result RuntimeObservation → RuntimeObservation
observed_or_empty (ok o) = o
observed_or_empty (err _) = record { deployment = none; service = none }

abbrev pub joined : Error → Result RuntimeObservation → Error
joined e (ok _) = e
joined e (err e') = join e e'

abbrev pub joined_option : Error → Option Error → Error
joined_option e none = e
joined_option e (some e') = join e e'

-- The counter and the histogram of internal/controller/metrics.go, by result. A histogram is the
-- list of what it has observed, in ticks of the clock.
pub record Metrics : Type 0 where
  pub success : ℕ
  pub error : ℕ
  pub success_durations : List ℕ
  pub error_durations : List ℕ

-- The deferred function: Inc and Observe under the label of the result.
abbrev pub counted : Option Error → ℕ → Metrics → Metrics
counted none elapsed x = record x {
  success = x.success + 1;
  success_durations = x.success_durations ++ (elapsed ∷ []);
}
counted (some _) elapsed x = record x {
  error = x.error + 1;
  error_durations = x.error_durations ++ (elapsed ∷ []);
}

module _ (p : Platform) where
  -- The transition Events, if the status was updated.
  abbrev pub transition_events : TrussiumRuntimeStatus → Updated → List Event
  transition_events previous u =
      if u.status_updated
      then record_status_transition_events p.conditions u.runtime previous u.runtime.status
          p.recorder
      else []

  -- What follows updateRuntimeStatus in handleReconciliationFailure.
  abbrev pub finish_failure : TrussiumRuntimeStatus → Error → Updated → M p.Cluster (Option Error)
  finish_failure previous e u = do
    let e' = joined_option e u.error
    emit (transition_events previous u)
    emit (record_reconciliation_failure u.runtime e' p.recorder)
    pure (some e')

  unfoldable pub handle_reconciliation_failure :
      TrussiumRuntime → TrussiumRuntimeStatus → Error → M p.Cluster (Option Error)
  handle_reconciliation_failure r previous e = do
    observation ← load_runtime_observation p r
    let e' = joined e observation
    u ← update_runtime_status p r (
        build_reconciliation_failure_status p.conditions p.now r (observed_or_empty observation) e')
    finish_failure previous e' u

  -- What follows updateRuntimeStatus in Reconcile and in reconcileInvalidConfiguration.
  abbrev pub finish : TrussiumRuntimeStatus → Updated → M p.Cluster (Option Error)
  finish previous u = elim u.error [
    | some e ↦ do emit (record_reconciliation_failure u.runtime e p.recorder); pure (some e)
    | none ↦ do emit (transition_events previous u); pure none
  ]

  -- Observe, build the status and store it: the common end of both functions.
  abbrev pub report_observed :
      TrussiumRuntime
      → TrussiumRuntimeStatus
      → ReferenceValidationResult
      → Result RuntimeObservation
      → M p.Cluster (Option Error)
  report_observed r previous v (err e) = handle_reconciliation_failure r previous e
  report_observed r previous v (ok o) = do
    u ← update_runtime_status p r (build_runtime_status p.conditions p.now r o v)
    finish previous u

  unfoldable pub reconcile_invalid_configuration :
      TrussiumRuntime
      → TrussiumRuntimeStatus
      → ReferenceValidationResult
      → M p.Cluster (Option Error)
  reconcile_invalid_configuration r previous v = do
    observation ← load_runtime_observation p r
    report_observed r previous v observation

  abbrev pub after_resources :
      TrussiumRuntime
      → TrussiumRuntimeStatus
      → ReferenceValidationResult
      → Result (Unit {0})
      → M p.Cluster (Option Error)
  after_resources r previous v (err e) = handle_reconciliation_failure r previous e
  after_resources r previous v (ok _) = do
    observation ← load_runtime_observation p r
    report_observed r previous v observation

  abbrev pub after_validation :
      TrussiumRuntime
      → TrussiumRuntimeStatus
      → ReferenceValidationResult
      → Option Error
      → M p.Cluster (Option Error)
  after_validation r previous v (some e) = handle_reconciliation_failure r previous e
  after_validation r previous v none =
      if v.valid
      then (do result ← reconcile_core_resources p r; after_resources r previous v result)
      else reconcile_invalid_configuration r previous v

  -- Behind the Get of the runtime.
  unfoldable pub reconcile_runtime : TrussiumRuntime → M p.Cluster (Option Error)
  reconcile_runtime r = if is_some r.meta.deletion_timestamp then pure none else do
    v ← validate_secret_references p r
    after_validation r (copy_runtime_status r.status) v v.error

  abbrev pub after_get : Result TrussiumRuntime → M p.Cluster (Option Error)
  after_get (ok r) = reconcile_runtime r
  after_get (err e) = pure (if p.is_not_found e then none else some e)

  unfoldable pub reconcile_body : NamespacedName → M p.Cluster (Option Error)
  reconcile_body request = do found ← reading (p.get_runtime request); after_get found

  -- With the deferred count of the result, and the time that the call took.
  unfoldable pub reconcile :
      NamespacedName → ℕ → Metrics → World p.Cluster → Option Error × Metrics × World p.Cluster
  reconcile request elapsed metrics w =
      let (result, w') = reconcile_body request w in (result, counted result elapsed metrics, w')
