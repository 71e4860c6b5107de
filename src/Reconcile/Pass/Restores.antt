-- ===== src/Reconcile/Pass/Restores.antt =====
-- After a pass of trussiumruntime_controller.go that returns no error, the managed objects are as
-- specified.
use trussium_operator.Prelude.{
  ◌≡◌, refl, sym, subst, ◌∙◌, true, Option, none, some, arith, is_some, Option-cases, inl, inr,
}
use trussium_operator.Kube.Errors.{Error, Result, ok, err}
use trussium_operator.Api.{TrussiumRuntime, TrussiumRuntimeStatus}
use trussium_operator.Status.References.{ReferenceValidationResult}
use trussium_operator.Status.Rollout.{RuntimeObservation}
use trussium_operator.Status.Build.{build_runtime_status}
use trussium_operator.Status.Conditions.{copy_runtime_status}
use trussium_operator.Reconcile.Platform.{Platform}
use trussium_operator.Reconcile.Monad.{World}
use trussium_operator.Reconcile.Mutate.Stable.{IsOwnership}
use trussium_operator.Reconcile.Load.{validate_secret_references, load_runtime_observation}
use trussium_operator.Reconcile.Resources.{reconcile_core_resources}
use trussium_operator.Reconcile.Update.{Updated, with_status, normalized, update_runtime_status}
use trussium_operator.Reconcile.Pass.{
  finish, report_observed, after_resources, after_validation, handle_reconciliation_failure,
  reconcile_runtime,
}
use trussium_operator.Reconcile.Pass.Effects.{either}
use trussium_operator.Reconcile.Cluster.{Managed, IsStore, held, AsSpecified}
use trussium_operator.Reconcile.Cluster.Answers.{load-Keeps}
use trussium_operator.Reconcile.Cluster.Steps.{core_resources-AsSpecified}

module _ {p : Platform} (store : IsStore p) (owns : IsOwnership p) (r : TrussiumRuntime) where
  -- The same objects, but for the runtime.
  abbrev ButRuntime : Managed → Managed → Type 0
  ButRuntime x y = (o : Option TrussiumRuntime) × (y ≡ record x { runtime = o })

  -- A property that does not speak of the runtime.
  abbrev Blind : (Managed → Type 0) → Type 0
  Blind S = (x : Managed) (o : Option TrussiumRuntime) → S x → S (record x { runtime = o })

  update-Keeps :
      (desired : TrussiumRuntimeStatus) (w : World p.Cluster)
      → ButRuntime (held store r w) (held store r (update_runtime_status p r desired w).1)
  unfolding update_runtime_status
  update-Keeps desired w =
      either (λ (out : Updated × World p.Cluster). ButRuntime (held store r w) (held store r out.1))
        (p.deep_equal r.status (normalized p r desired)) _ _ w
        (λ e. ((held store r w).runtime, refl))
        (λ e.
          let (o, same, _) =
            store.status_update (with_status r (normalized p r desired)) w.cluster in
          (o, same))

  pub finish-Keeps :
      (previous : TrussiumRuntimeStatus) (u : Updated) (w : World p.Cluster)
      → held store r (finish p previous u w).1 ≡ held store r w
  finish-Keeps previous u w = elim (Option-cases u.error) [ inl e ↦ rw e | inr (x, e) ↦ rw e ]

  -- What holds of the objects holds at the end, if no error is returned.
  observed-Holds :
      (S : Managed → Type 0) (blind : Blind S) (previous : TrussiumRuntimeStatus)
      (v : ReferenceValidationResult) (x : Result RuntimeObservation) (w : World p.Cluster)
      → S (held store r w)
      → (report_observed p r previous v x w).0 ≡ none
      → S (held store r (report_observed p r previous v x w).1)
  unfolding handle_reconciliation_failure
  observed-Holds S blind previous v (err e) w good h = cc
  observed-Holds S blind previous v (ok o) w good h =
      let desired = build_runtime_status p.conditions p.now r o v in
      let (stored, same) = update-Keeps desired w in
      let (u, w') = update_runtime_status p r desired w in
      subst S (sym (finish-Keeps previous u w' ∙ same)) (blind (held store r w) stored good)

  resources-Holds :
      (S : Managed → Type 0) (blind : Blind S) (previous : TrussiumRuntimeStatus)
      (v : ReferenceValidationResult) (x : Result (Unit {0})) (w : World p.Cluster)
      → (x ≡ ok tt → S (held store r w))
      → (after_resources p r previous v x w).0 ≡ none
      → S (held store r (after_resources p r previous v x w).1)
  unfolding handle_reconciliation_failure
  resources-Holds S blind previous v (err e) w good h = cc
  resources-Holds S blind previous v (ok tt) w good h =
      observed-Holds S blind previous v (load_runtime_observation p r w).0
        (load_runtime_observation p r w).1 (subst S (sym (load-Keeps store r w)) (good refl)) h

  validation-Holds :
      (previous : TrussiumRuntimeStatus) (v : ReferenceValidationResult) (x : Option Error)
      (w : World p.Cluster)
      → v.valid ≡ true
      → (after_validation p r previous v x w).0 ≡ none
      → AsSpecified p r (held store r (after_validation p r previous v x w).1)
  unfolding handle_reconciliation_failure
  validation-Holds previous v (some e) w valid h = cc
  validation-Holds previous v none w valid h =
      either (λ out. out.0 ≡ none → AsSpecified p r (held store r out.1)) v.valid _ _ w
        (λ g h.
          resources-Holds (AsSpecified p r) (λ x o h. h) previous v
            (reconcile_core_resources p r w).0 (reconcile_core_resources p r w).1
            (core_resources-AsSpecified store owns r w) h)
        (λ g. cc) h

  -- Drift is corrected: where the API server is a store of the managed objects, and setting the owner
  -- keeps the labels and does nothing the second time, a pass over a runtime that is not being deleted
  -- and whose references are valid, if it returns no error, leaves the managed objects as the
  -- specification asks for them, whatever they were before. Each is owned by the runtime and has the
  -- managed labels and the built fields; the Deployment has the declared replicas where the autoscaler
  -- is off; a NetworkPolicy or an autoscaler that is not enabled is gone.
  pub pass-AsSpecified :
      (w : World p.Cluster)
      → r.meta.deletion_timestamp ≡ none
      → (validate_secret_references p r w).0.valid ≡ true
      → (reconcile_runtime p r w).0 ≡ none
      → AsSpecified p r (held store r (reconcile_runtime p r w).1)
  unfolding reconcile_runtime
  pass-AsSpecified w alive valid =
      let (v, w') = validate_secret_references p r w in
      either (λ out. out.0 ≡ none → AsSpecified p r (held store r out.1))
        (is_some r.meta.deletion_timestamp) _ _ w (λ d. ground (arith, alive, d))
        (λ d h. validation-Holds (copy_runtime_status r.status) v v.error w' valid h)
