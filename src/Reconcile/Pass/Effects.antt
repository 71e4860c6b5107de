-- ===== src/Reconcile/Pass/Effects.antt =====
-- What a pass of the reconciler writes, on every path.
use mathlib.Core.List.{append-nil}
use trussium_operator.Prelude.{
  ◌≡◌, refl, sym, subst, inl, inr, Bool, true, false, Option, none, some, List, [], ◌++◌,
  Option-cases, if◌then◌else◌, is_some,
}
use trussium_operator.Kube.Errors.{Error, Result, ok, err}
use trussium_operator.Api.{TrussiumRuntime, TrussiumRuntimeStatus}
use trussium_operator.Status.References.{ReferenceValidationResult}
use trussium_operator.Status.Rollout.{RuntimeObservation}
use trussium_operator.Status.Conditions.{copy_runtime_status}
use trussium_operator.Reconcile.Platform.{Platform}
use trussium_operator.Reconcile.Monad.{World, Write, M}
use trussium_operator.Reconcile.Load.{validate_secret_references}
use trussium_operator.Reconcile.Load.Reading.{validate-Silent, load-Silent}
use trussium_operator.Reconcile.Resources.{reconcile_core_resources}
use trussium_operator.Reconcile.Resources.Order.{plan, core_resources-Follows}
use trussium_operator.Reconcile.Update.{Updated}
use trussium_operator.Reconcile.Update.Writes.{AtMostStatus, update-AtMostStatus}
use trussium_operator.Reconcile.Pass.{
  finish, report_observed, handle_reconciliation_failure, reconcile_invalid_configuration,
  after_resources, after_validation, reconcile_runtime,
}

-- Some of a sequence of writes, in its order, then at most one status update.
abbrev pub PrefixThenStatus : List Write → List Write → List Write → Type 0
PrefixThenStatus planned before after =
    (done : List Write) × (rest : List Write) × (done ++ rest ≡ planned)
    × AtMostStatus (before ++ done) after

-- What holds of both branches holds of the choice.
pub either :
    {C A : Type 0} (P : A × World C → Type 0) (b : Bool) (m n : M C A) (w : World C)
    → (b ≡ true → P (m w))
    → (b ≡ false → P (n w))
    → P ((if b then m else n) w)
either P true m n w h g = h refl
either P false m n w h g = g refl

pub from :
    {before before' : List Write}
    → before ≡ before'
    → (after : List Write) → AtMostStatus before after
    → AtMostStatus before' after
from e after h = subst (λ l. AtMostStatus l after) e h

module _ (p : Platform) where
  -- At most a status update is written.
  abbrev pub OnlyStatus : M p.Cluster (Option Error) → Type 0
  OnlyStatus m = (w : World p.Cluster) → AtMostStatus w.writes (m w).1.writes

  finish-writes :
      (previous : TrussiumRuntimeStatus) (u : Updated) (w : World p.Cluster)
      → (finish p previous u w).1.writes ≡ w.writes
  finish-writes previous u w = elim (Option-cases u.error) [
    | inl e ↦ rw e refl
    | inr (e, h) ↦ rw h refl
  ]

  handle-OnlyStatus :
      (r : TrussiumRuntime) (previous : TrussiumRuntimeStatus) (e : Error)
      → OnlyStatus (handle_reconciliation_failure p r previous e)
  unfolding handle_reconciliation_failure
  handle-OnlyStatus r previous e w =
      subst (λ l. AtMostStatus l (handle_reconciliation_failure p r previous e w).1.writes)
        (load-Silent p r w).0 ((update-AtMostStatus p r _ _).0)

  report-OnlyStatus :
      (r : TrussiumRuntime) (previous : TrussiumRuntimeStatus) (v : ReferenceValidationResult)
      (x : Result RuntimeObservation)
      → OnlyStatus (report_observed p r previous v x)
  report-OnlyStatus r previous v (err e) w = handle-OnlyStatus r previous e w
  report-OnlyStatus r previous v (ok o) w =
      subst (AtMostStatus w.writes) (sym (finish-writes previous _ _))
        ((update-AtMostStatus p r _ w).0)

  invalid-OnlyStatus :
      (r : TrussiumRuntime) (previous : TrussiumRuntimeStatus) (v : ReferenceValidationResult)
      → OnlyStatus (reconcile_invalid_configuration p r previous v)
  unfolding reconcile_invalid_configuration
  invalid-OnlyStatus r previous v w =
      subst (λ l. AtMostStatus l (reconcile_invalid_configuration p r previous v w).1.writes)
        (load-Silent p r w).0 (report-OnlyStatus r previous v _ _)

  pub resources-OnlyStatus :
      (r : TrussiumRuntime) (previous : TrussiumRuntimeStatus) (v : ReferenceValidationResult)
      (x : Result (Unit {0}))
      → OnlyStatus (after_resources p r previous v x)
  resources-OnlyStatus r previous v (err e) w = handle-OnlyStatus r previous e w
  resources-OnlyStatus r previous v (ok u) w =
      subst (λ l. AtMostStatus l (after_resources p r previous v (ok u) w).1.writes)
        (load-Silent p r w).0 (report-OnlyStatus r previous v _ _)

  validation-OnlyStatus :
      (r : TrussiumRuntime) (previous : TrussiumRuntimeStatus) (v : ReferenceValidationResult)
      (x : Option Error)
      → v.valid ≡ false
      → OnlyStatus (after_validation p r previous v x)
  validation-OnlyStatus r previous v (some e) h w = handle-OnlyStatus r previous e w
  validation-OnlyStatus r previous v none h w =
      either (λ out. AtMostStatus w.writes out.1.writes) v.valid _ _ w (λ g. cc)
        (λ g. invalid-OnlyStatus r previous v w)

  PrefixThenStatus-none :
      (r : TrussiumRuntime) (before after : List Write)
      → AtMostStatus before after
      → PrefixThenStatus (plan r) before after
  PrefixThenStatus-none r before after h =
      ([], plan r, refl, subst (λ l. AtMostStatus l after) (sym (append-nil before)) h)

  resources-PrefixThenStatus :
      (r : TrussiumRuntime) (previous : TrussiumRuntimeStatus) (v : ReferenceValidationResult)
      (w : World p.Cluster)
      → PrefixThenStatus
          (plan r)
          w.writes
          (after_resources p r previous v
            (reconcile_core_resources p r w).0
            (reconcile_core_resources p r w).1).1.writes
  resources-PrefixThenStatus r previous v w =
      let (done, rest, whole, wrote, silent, complete) = core_resources-Follows p r w in
      (
        done,
        rest,
        whole,
        from wrote _ (
            resources-OnlyStatus r previous v (reconcile_core_resources p r w).0
              (reconcile_core_resources p r w).1),
      )

  validation-PrefixThenStatus :
      (r : TrussiumRuntime) (previous : TrussiumRuntimeStatus) (v : ReferenceValidationResult)
      (x : Option Error) (w : World p.Cluster)
      → PrefixThenStatus (plan r) w.writes (after_validation p r previous v x w).1.writes
  validation-PrefixThenStatus r previous v (some e) w =
      PrefixThenStatus-none r _ _ (handle-OnlyStatus r previous e w)
  validation-PrefixThenStatus r previous v none w =
      either (λ out. PrefixThenStatus (plan r) w.writes out.1.writes) v.valid _ _ w
        (λ h. resources-PrefixThenStatus r previous v w)
        (λ h. PrefixThenStatus-none r _ _ (invalid-OnlyStatus r previous v w))

  -- A pass over a runtime whose references are not valid, or could not be checked, writes at most
  -- the status: the managed objects are not touched.
  pub unresolved-OnlyStatus :
      (r : TrussiumRuntime) (w : World p.Cluster)
      → (validate_secret_references p r w).0.valid ≡ false
      → AtMostStatus w.writes (reconcile_runtime p r w).1.writes
  unfolding reconcile_runtime
  unresolved-OnlyStatus r w h =
      let (v, w') = validate_secret_references p r w in
      either (λ out. AtMostStatus w.writes out.1.writes) (is_some r.meta.deletion_timestamp) _ _ w
        (λ d. inl refl)
        (λ d.
          from (validate-Silent p r w).0 _
            (validation-OnlyStatus r (copy_runtime_status r.status) v v.error h w'))

  -- A pass makes the managed objects' writes in the plan's order, up to where it stops, and then at
  -- most one status update. The plan is ConfigMap, ServiceAccount, Service, Deployment and
  -- PodDisruptionBudget, and then the NetworkPolicy and the autoscaler, each put or deleted.
  pub pass-PrefixThenStatus :
      (r : TrussiumRuntime) (w : World p.Cluster)
      → PrefixThenStatus (plan r) w.writes (reconcile_runtime p r w).1.writes
  unfolding reconcile_runtime
  pass-PrefixThenStatus r w =
      let (v, w') = validate_secret_references p r w in
      either (λ out. PrefixThenStatus (plan r) w.writes out.1.writes)
        (is_some r.meta.deletion_timestamp) _ _ w
        (λ d. PrefixThenStatus-none r w.writes w.writes (inl refl))
        (λ d.
          subst
            (λ l.
              PrefixThenStatus (plan r) l
                (after_validation p r (copy_runtime_status r.status) v v.error w').1.writes)
            (validate-Silent p r w).0
            (validation-PrefixThenStatus r (copy_runtime_status r.status) v v.error w'))
