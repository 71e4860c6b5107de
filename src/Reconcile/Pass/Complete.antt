-- ===== src/Reconcile/Pass/Complete.antt =====
-- A pass that returns no error has written all the managed objects.
use trussium_operator.Prelude.{
  ◌≡◌, refl, sym, ap, subst, ◌∙◌, true, Option, none, some, List, ◌++◌, arith, is_some,
}
use mathlib.Core.List.{append-nil}
use trussium_operator.Kube.Errors.{Error, Result, ok, err}
use trussium_operator.Api.{TrussiumRuntime, TrussiumRuntimeStatus}
use trussium_operator.Status.References.{ReferenceValidationResult}
use trussium_operator.Status.Conditions.{copy_runtime_status}
use trussium_operator.Reconcile.Platform.{Platform}
use trussium_operator.Reconcile.Monad.{World, Write}
use trussium_operator.Reconcile.Load.{validate_secret_references}
use trussium_operator.Reconcile.Load.Reading.{validate-Silent, validate-valid}
use trussium_operator.Reconcile.Resources.{reconcile_core_resources}
use trussium_operator.Reconcile.Resources.Order.{plan, core_resources-Follows}
use trussium_operator.Reconcile.Update.Writes.{AtMostStatus}
use trussium_operator.Reconcile.Pass.{
  handle_reconciliation_failure, after_resources, after_validation, reconcile_runtime,
}
use trussium_operator.Reconcile.Pass.Effects.{either, from, resources-OnlyStatus}

-- All of a sequence of writes, where no error is returned, then at most one status update.
abbrev pub AllOf : List Write → List Write → Option Error → List Write → Type 0
AllOf planned before (some e) after = Unit
AllOf planned before none after = AtMostStatus (before ++ planned) after

AllOf-none :
    (planned before : List Write) (x : Option Error) (after : List Write)
    → AtMostStatus (before ++ planned) after
    → AllOf planned before x after
AllOf-none planned before none after h = h
AllOf-none planned before (some e) after h = tt

module _ (p : Platform) where
  resources-AllOf :
      (r : TrussiumRuntime) (previous : TrussiumRuntimeStatus) (v : ReferenceValidationResult)
      (before : List Write) (x : Result (Unit {0})) (w : World p.Cluster)
      → (x ≡ ok tt → w.writes ≡ before ++ plan r)
      → AllOf
          (plan r)
          before
          (after_resources p r previous v x w).0
          (after_resources p r previous v x w).1.writes
  unfolding handle_reconciliation_failure
  resources-AllOf r previous v before (err e) w h = tt
  resources-AllOf r previous v before (ok tt) w h =
      AllOf-none (plan r) before _ _
        (from (h refl) _ (resources-OnlyStatus p r previous v (ok tt) w))

  pub whole-if-ok :
      (r : TrussiumRuntime) (w : World p.Cluster)
      → (reconcile_core_resources p r w).0 ≡ ok tt
      → (reconcile_core_resources p r w).1.writes ≡ w.writes ++ plan r
  whole-if-ok r w h =
      let (done, rest, whole, wrote, silent, complete) = core_resources-Follows p r w in
      wrote
      ∙ ap (◌++◌ w.writes) (sym (append-nil done) ∙ (ap (◌++◌ done) (sym (complete h)) ∙ whole))

  validation-AllOf :
      (r : TrussiumRuntime) (previous : TrussiumRuntimeStatus) (v : ReferenceValidationResult)
      (x : Option Error) (w : World p.Cluster)
      → v.valid ≡ true
      → x ≡ none
      → AllOf
          (plan r)
          w.writes
          (after_validation p r previous v x w).0
          (after_validation p r previous v x w).1.writes
  validation-AllOf r previous v (some e) w valid h = cc
  validation-AllOf r previous v none w valid h =
      either (λ out. AllOf (plan r) w.writes out.0 out.1.writes) v.valid _ _ w
        (λ g.
          resources-AllOf r previous v w.writes (reconcile_core_resources p r w).0
            (reconcile_core_resources p r w).1 (whole-if-ok r w))
        (λ g. cc)

  -- A pass over a runtime that is not being deleted and whose references are valid, if it returns no
  -- error, makes all of the plan's writes in their order, and then at most one status update.
  pub pass-AllOf :
      (r : TrussiumRuntime) (w : World p.Cluster)
      → r.meta.deletion_timestamp ≡ none
      → (validate_secret_references p r w).0.valid ≡ true
      → AllOf (plan r) w.writes (reconcile_runtime p r w).0 (reconcile_runtime p r w).1.writes
  unfolding reconcile_runtime
  pass-AllOf r w alive valid =
      let (v, w') = validate_secret_references p r w in
      either (λ out. AllOf (plan r) w.writes out.0 out.1.writes) (is_some r.meta.deletion_timestamp)
        _ _ w (λ d. ground (arith, alive, d))
        (λ d.
          subst
            (λ l.
              AllOf (plan r) l (after_validation p r (copy_runtime_status r.status) v v.error w').0
                (after_validation p r (copy_runtime_status r.status) v v.error w').1.writes)
            (validate-Silent p r w).0
            (validation-AllOf r (copy_runtime_status r.status) v v.error w' valid
              (validate-valid p r w valid)))
