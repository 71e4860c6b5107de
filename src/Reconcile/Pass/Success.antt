-- ===== src/Reconcile/Pass/Success.antt =====
-- Where the API server fails no call, a pass succeeds and everything is written.
use trussium_operator.Prelude.{
  ◌≡◌, ◌<>◌, refl, subst, inl, inr, String, true, Option, none, some, ◌++◌, is_some,
}
use trussium_operator.Kube.{NamespacedName}
use trussium_operator.Kube.Errors.{Error, Result, ok, err}
use trussium_operator.Kube.Workload.{Deployment}
use trussium_operator.Api.{TrussiumRuntime, TrussiumRuntimeStatus}
use trussium_operator.Events.{runtime_key}
use trussium_operator.Status.References.{ReferenceValidationResult}
use trussium_operator.Status.Rollout.{RuntimeObservation}
use trussium_operator.Status.Conditions.{copy_runtime_status}
use trussium_operator.Reconcile.Platform.{Platform}
use trussium_operator.Reconcile.Monad.{World}
use trussium_operator.Reconcile.Load.{
  validate_secret_references, load_runtime_observation, with_service, optional, slashed,
}
use trussium_operator.Reconcile.Resources.Order.{plan}
use trussium_operator.Reconcile.Update.{Updated, normalized, with_status, update_runtime_status}
use trussium_operator.Reconcile.Update.Writes.{AtMostStatus}
use trussium_operator.Reconcile.Pass.{
  finish, report_observed, after_resources, after_validation, reconcile_runtime,
}
use trussium_operator.Reconcile.Pass.Effects.{either}
use trussium_operator.Reconcile.Load.Reading.{validate-valid}
use trussium_operator.Reconcile.Pass.Complete.{AllOf, pass-AllOf}
use trussium_operator.Reconcile.Pass.Willing.{IsOk, IsAnswered, IsWilling, core_resources-Succeeds}

module _ (p : Platform) (willing : IsWilling p) (r : TrussiumRuntime) where
  optional-IsOk :
      {A : Type 0} (context : String) (x : Result A)
      → IsAnswered p.is_not_found x
      → IsOk (optional p context x)
  optional-IsOk context x (inl (a, e)) = (some a, rw e refl)
  optional-IsOk context x (inr (e, failed, gone)) = (none, rw (failed, gone) refl)

  with_service-IsOk :
      (k : NamespacedName) (x : Result (Option Deployment))
      → IsOk x
      → (w : World p.Cluster) → IsOk (with_service p k x w).0
  with_service-IsOk k x (d, e) w =
      let (s, found) =
        optional-IsOk ("get managed Service " <> slashed k) (p.get_service k w.cluster).0
          (willing.service_read k w.cluster) in
      (record { deployment = d; service = s }, rw (e, found) refl)

  pub observation-IsOk : (w : World p.Cluster) → IsOk (load_runtime_observation p r w).0
  unfolding load_runtime_observation
  observation-IsOk w =
      with_service-IsOk (runtime_key r) _
        (optional-IsOk _ _ (willing.deployment_read (runtime_key r) w.cluster)) _

  update-NoError :
      (desired : TrussiumRuntimeStatus) (w : World p.Cluster)
      → (update_runtime_status p r desired w).0.error ≡ none
  unfolding update_runtime_status
  update-NoError desired w =
      either (λ (out : Updated × World p.Cluster). out.0.error ≡ none)
        (p.deep_equal r.status (normalized p r desired)) _ _ w (λ e. refl)
        (λ e.
          let (stored, sent) =
            willing.status_stored (with_status r (normalized p r desired)) w.cluster in
          rw sent refl)

  finish-none :
      (previous : TrussiumRuntimeStatus) (u : Updated) (w : World p.Cluster)
      → u.error ≡ none
      → (finish p previous u w).0 ≡ none
  finish-none previous u w h = rw h refl

  observed-none :
      (previous : TrussiumRuntimeStatus) (v : ReferenceValidationResult)
      (x : Result RuntimeObservation) (w : World p.Cluster)
      → IsOk x
      → (report_observed p r previous v x w).0 ≡ none
  observed-none previous v (err e) w (o, h) = cc
  observed-none previous v (ok o) w h = finish-none previous _ _ (update-NoError _ w)

  resources-none :
      (previous : TrussiumRuntimeStatus) (v : ReferenceValidationResult) (x : Result (Unit {0}))
      (w : World p.Cluster)
      → x ≡ ok tt
      → (after_resources p r previous v x w).0 ≡ none
  resources-none previous v (err e) w h = cc
  resources-none previous v (ok tt) w h = observed-none previous v _ _ (observation-IsOk w)

  validation-none :
      (previous : TrussiumRuntimeStatus) (v : ReferenceValidationResult) (x : Option Error)
      (w : World p.Cluster)
      → v.valid ≡ true
      → x ≡ none
      → (after_validation p r previous v x w).0 ≡ none
  validation-none previous v (some e) w valid h = cc
  validation-none previous v none w valid h =
      either (λ out. out.0 ≡ none) v.valid _ _ w
        (λ g. resources-none previous v _ _ (core_resources-Succeeds p willing r w)) (λ g. cc)

  pass-none :
      (w : World p.Cluster)
      → r.meta.deletion_timestamp ≡ none
      → (validate_secret_references p r w).0.valid ≡ true
      → (reconcile_runtime p r w).0 ≡ none
  unfolding reconcile_runtime
  pass-none w alive valid =
      either (λ out. out.0 ≡ none) (is_some r.meta.deletion_timestamp) _ _ w (λ d. refl)
        (λ d.
          validation-none (copy_runtime_status r.status) _ _ _ valid (validate-valid p r w valid))

  -- Where no call of the API server fails (reads and deletions may say NotFound, CreateOrUpdate
  -- succeeds for a mutation that does, and owner references can be set), a pass over a runtime that is
  -- not being deleted and whose references are valid succeeds: it returns no error, and has made all
  -- of the plan's writes in their order, and then at most one status update.
  pub pass-succeeds :
      (w : World p.Cluster)
      → r.meta.deletion_timestamp ≡ none
      → (validate_secret_references p r w).0.valid ≡ true
      → ((reconcile_runtime p r w).0 ≡ none)
        × AtMostStatus (w.writes ++ plan r) (reconcile_runtime p r w).1.writes
  pass-succeeds w alive valid = (
    pass-none w alive valid,
    subst (λ x. AllOf (plan r) w.writes x (reconcile_runtime p r w).1.writes)
        (pass-none w alive valid) (pass-AllOf p r w alive valid),
  )
