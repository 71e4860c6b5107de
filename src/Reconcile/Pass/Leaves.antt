-- ===== src/Reconcile/Pass/Leaves.antt =====
-- What a pass of trussiumruntime_controller.go that succeeds leaves in the cluster.
use trussium_operator.Prelude.{◌≡◌, sym, ap, subst, ◌∙◌, true, none, some, arith, is_some}
use trussium_operator.Kube.Errors.{Result, ok}
use trussium_operator.Api.{TrussiumRuntime, TrussiumRuntimeStatus}
use trussium_operator.Status.References.{ReferenceValidationResult}
use trussium_operator.Status.Rollout.{RuntimeObservation}
use trussium_operator.Status.Build.{build_runtime_status}
use trussium_operator.Status.Conditions.{copy_runtime_status}
use trussium_operator.Reconcile.Platform.{Platform}
use trussium_operator.Reconcile.Monad.{World}
use trussium_operator.Reconcile.Load.{validate_secret_references, load_runtime_observation}
use trussium_operator.Reconcile.Load.Reading.{validate-valid}
use trussium_operator.Reconcile.Resources.{reconcile_core_resources}
use trussium_operator.Reconcile.Update.{Updated, with_status, normalized, update_runtime_status}
use trussium_operator.Reconcile.Pass.{
  report_observed, after_resources, after_validation, reconcile_runtime,
}
use trussium_operator.Reconcile.Pass.Effects.{either}
use trussium_operator.Reconcile.Pass.Willing.{IsWilling, core_resources-Succeeds}
use trussium_operator.Reconcile.Pass.Again.{IsEquality}
use trussium_operator.Reconcile.Pass.Restores.{finish-Keeps}
use trussium_operator.Reconcile.Cluster.{Managed, IsStore, held}
use trussium_operator.Reconcile.Cluster.Answers.{load-Keeps, validate-Keeps}
use trussium_operator.Reconcile.Cluster.Steps.{core_resources-Apart}
use trussium_operator.Reconcile.Mutate.Stable.{IsOwnership}

module _ (p : Platform) (r : TrussiumRuntime) where
  -- The worlds after the references are checked, and after the managed objects are written.
  abbrev pub checked_world : World p.Cluster → World p.Cluster
  checked_world w = (validate_secret_references p r w).1

  abbrev pub written_world : World p.Cluster → World p.Cluster
  written_world w = (reconcile_core_resources p r (checked_world w)).1

module _ {p : Platform} (store : IsStore p) (owns : IsOwnership p) (willing : IsWilling p)
    (equal : IsEquality p) (r : TrussiumRuntime) where
  -- With the runtime's status replaced.
  abbrev pub restated : TrussiumRuntimeStatus → Managed → Managed
  restated desired x = record x { runtime = some (with_status r (normalized p r desired)) }

  update-Stores :
      (desired : TrussiumRuntimeStatus) (w : World p.Cluster)
      → (held store r w).runtime ≡ some r
      → held store r (update_runtime_status p r desired w).1 ≡ restated desired (held store r w)
  unfolding update_runtime_status
  update-Stores desired w there =
      either
        (λ (out : Updated × World p.Cluster).
          held store r out.1 ≡ restated desired (held store r w))
        (p.deep_equal r.status (normalized p r desired)) _ _ w
        (λ e.
          ap (λ o. record (held store r w) { runtime = o }) there
          ∙ ap (λ s. record (held store r w) { runtime = some (with_status r s) })
              ((equal r.status (normalized p r desired)).0 e))
        (λ e.
          let sent = with_status r (normalized p r desired) in
          let (o, same, stored) = store.status_update sent w.cluster in
          let (x, accepted) = willing.status_stored sent w.cluster in
          same ∙ ap (λ o. record (held store r w) { runtime = o }) (stored x accepted))

  observed-Leaves :
      (previous : TrussiumRuntimeStatus) (v : ReferenceValidationResult) (o : RuntimeObservation)
      (x : Result RuntimeObservation) (w : World p.Cluster)
      → x ≡ ok o
      → (held store r w).runtime ≡ some r
      → held store r (report_observed p r previous v x w).1
        ≡ restated (build_runtime_status p.conditions p.now r o v) (held store r w)
  observed-Leaves previous v o x w found there =
      let desired = build_runtime_status p.conditions p.now r o v in
      let (u, w') = update_runtime_status p r desired w in
      subst
        (λ y.
          held store r (report_observed p r previous v y w).1 ≡ restated desired (held store r w))
        (sym found) (finish-Keeps store owns r previous u w' ∙ update-Stores desired w there)

  resources-Leaves :
      (previous : TrussiumRuntimeStatus) (v : ReferenceValidationResult) (o : RuntimeObservation)
      (x : Result (Unit {0})) (w : World p.Cluster)
      → x ≡ ok tt
      → (load_runtime_observation p r w).0 ≡ ok o
      → (held store r w).runtime ≡ some r
      → held store r (after_resources p r previous v x w).1
        ≡ restated (build_runtime_status p.conditions p.now r o v) (held store r w)
  resources-Leaves previous v o x w done found there =
      let desired = build_runtime_status p.conditions p.now r o v in
      let (y, w') = load_runtime_observation p r w in
      subst
        (λ z.
          held store r (after_resources p r previous v z w).1 ≡ restated desired (held store r w))
        (sym done)
        (observed-Leaves previous v o y w' found
            (ap (λ (m : Managed). m.runtime) (load-Keeps store r w) ∙ there)
          ∙ ap (restated desired) (load-Keeps store r w))

  -- A pass that succeeds leaves the objects as it has written them, and the status of what it has
  -- observed then.
  pub pass-Leaves :
      (w : World p.Cluster) (o : RuntimeObservation)
      → (held store r w).runtime ≡ some r
      → r.meta.deletion_timestamp ≡ none
      → (validate_secret_references p r w).0.valid ≡ true
      → (load_runtime_observation p r (written_world p r w)).0 ≡ ok o
      → held store r (reconcile_runtime p r w).1
        ≡ restated
            (build_runtime_status p.conditions p.now r o (validate_secret_references p r w).0)
            (held store r (written_world p r w))
  unfolding reconcile_runtime
  pass-Leaves w o there alive valid found =
      let v = (validate_secret_references p r w).0 in
      let result =
        restated (build_runtime_status p.conditions p.now r o v)
          (held store r (written_world p r w)) in
      let done = core_resources-Succeeds p willing r (checked_world p r w) in
      let kept =
        (core_resources-Apart store owns r (checked_world p r w) done).0
        ∙ (ap (λ (m : Managed). m.runtime) (validate-Keeps store r w) ∙ there) in
      either (λ out. held store r out.1 ≡ result) (is_some r.meta.deletion_timestamp) _ _ w
        (λ d. ground (arith, alive, d))
        (λ d.
          subst
            (λ e.
              held store r
                (after_validation p r (copy_runtime_status r.status) v e (checked_world p r w)).1
              ≡ result)
            (sym (validate-valid p r w valid))
            (either (λ out. held store r out.1 ≡ result) v.valid _ _ (checked_world p r w)
              (λ g.
                resources-Leaves (copy_runtime_status r.status) v o
                  (reconcile_core_resources p r (checked_world p r w)).0 (written_world p r w) done
                  found kept)
              (λ g. cc)))
