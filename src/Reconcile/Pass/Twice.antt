-- ===== src/Reconcile/Pass/Twice.antt =====
-- Two calls of Reconcile in a row, while nobody else acts: the second changes nothing.
use trussium_operator.Prelude.{◌≡◌, ◌≢◌, sym, ap, subst, ◌∙◌, true, Option, none, some, ◌++◌}
use trussium_operator.Kube.Condition.{IsConditionApi, SetsInPlace}
use trussium_operator.Kube.Errors.{Error, Result, ok}
use trussium_operator.Api.{TrussiumRuntime, TrussiumRuntimeStatus}
use trussium_operator.Resources.Identity.{runtime_image}
use trussium_operator.Status.References.{ReferenceValidationResult}
use trussium_operator.Status.Rollout.{RuntimeObservation}
use trussium_operator.Status.Conditions.Times.{HasUniqueTypes}
use trussium_operator.Status.Build.{build_runtime_status}
use trussium_operator.Status.Build.Settled.{build_settles}
use trussium_operator.Events.{runtime_key}
use trussium_operator.Reconcile.Platform.{Platform}
use trussium_operator.Reconcile.Monad.{World, reading}
use trussium_operator.Reconcile.Mutate.Stable.{IsOwnership}
use trussium_operator.Reconcile.Load.{validate_secret_references, load_runtime_observation}
use trussium_operator.Reconcile.Resources.Order.{plan}
use trussium_operator.Reconcile.Update.{with_status, normalized}
use trussium_operator.Reconcile.Pass.{reconcile_runtime, after_get, reconcile_body}
use trussium_operator.Reconcile.Pass.Willing.{IsWilling, core_resources-Succeeds}
use trussium_operator.Reconcile.Pass.Success.{observation-IsOk, pass-succeeds}
use trussium_operator.Reconcile.Pass.Again.{IsEquality, pass-stored, served-writes, Serves}
use trussium_operator.Reconcile.Pass.Leaves.{checked_world, written_world, pass-Leaves}
use trussium_operator.Reconcile.Cluster.{Managed, IsStore, held, AsSpecified}
use trussium_operator.Reconcile.Cluster.Steps.{core_resources-AsSpecified, core_resources-Apart}
use trussium_operator.Reconcile.Cluster.Kept.{core_resources-Stays}
use trussium_operator.Reconcile.Cluster.Answers.{
  load-Keeps, load-Answers, load-status, validate-Keeps, validate-Answers,
}
use trussium_operator.Reconcile.Cluster.Status.{OwnsByName, plan-status, AsSpecified-status}

module _ {p : Platform} (store : IsStore p) (r : TrussiumRuntime) where
  -- The world after the runtime has been read.
  abbrev got : World p.Cluster → World p.Cluster
  got w = (reading (p.get_runtime (runtime_key r)) w).1

  got-Keeps : (w : World p.Cluster) → held store r (got w) ≡ held store r w
  got-Keeps w = store.runtime_read (runtime_key r) (runtime_key r) w.cluster

  -- Reconcile works on the runtime that is stored.
  reconcile_body-stored :
      (w : World p.Cluster)
      → (held store r w).runtime ≡ some r
      → reconcile_body p (runtime_key r) w ≡ reconcile_runtime p r (got w)
  unfolding reconcile_body
  reconcile_body-stored w there =
      ap (λ x. after_get p x (got w)) (store.runtime_answer (runtime_key r) w.cluster r there)

module _ {p : Platform} (store : IsStore p) (by_name : OwnsByName p) (willing : IsWilling p)
    (r : TrussiumRuntime) (s : TrussiumRuntimeStatus) where
  -- With another status, the objects are written as they are.
  second-Keeps :
      (x : World p.Cluster)
      → AsSpecified p r (held store r x)
      → held store r (written_world p (with_status r s) x) ≡ held store r x
  second-Keeps x good =
      let r' = with_status r s in
      let y = checked_world p r' x in
      core_resources-Stays store r' y (core_resources-Succeeds p willing r' y) (
        subst (AsSpecified p r') (sym (validate-Keeps store r' x))
          (AsSpecified-status p by_name r s (held store r x) good))
      ∙ validate-Keeps store r' x

  -- So what was observed of them before is observed again.
  second-Serves :
      (x y : World p.Cluster) (o : RuntimeObservation)
      → AsSpecified p r (held store r x)
      → (validate_secret_references p (with_status r s) x).0.valid ≡ true
      → (load_runtime_observation p r y).0 ≡ ok o
      → (held store r x).deployment ≡ (held store r y).deployment
      → (held store r x).service ≡ (held store r y).service
      → (equal : IsEquality p) → Serves p equal (with_status r s) x o
  second-Serves x y o good valid found deployment service equal =
      let r' = with_status r s in
      let z = written_world p r' x in
      (
        valid,
        core_resources-Succeeds p willing r' (checked_world p r' x),
        ap (λ (out : Result RuntimeObservation × World p.Cluster). out.0) (load-status store r s z)
            ∙ (load-Answers store r z y
                  (ap (λ (m : Managed). m.deployment) (second-Keeps x good) ∙ deployment)
                  (ap (λ (m : Managed). m.service) (second-Keeps x good) ∙ service)
                ∙ found),
      )

module _ {p : Platform} (store : IsStore p) (owns : IsOwnership p) (by_name : OwnsByName p)
    (willing : IsWilling p) (equal : IsEquality p) (laws : IsConditionApi p.conditions)
    (inplace : SetsInPlace p.conditions) (r : TrussiumRuntime)
    (once : HasUniqueTypes p.conditions r.status.conditions)
    (named : runtime_image r.spec.image ≢ "") (alive : r.meta.deletion_timestamp ≡ none) where
  -- The runtime as a pass leaves it.
  abbrev left : World p.Cluster → RuntimeObservation → TrussiumRuntimeStatus
  left w o =
      normalized p r
        (build_runtime_status p.conditions p.now r o (validate_secret_references p r w).0)

  -- The second pass, from what the first has left.
  second :
      (w x : World p.Cluster) (o : RuntimeObservation)
      → (validate_secret_references p r w).0.valid ≡ true
      → (load_runtime_observation p r (written_world p r w)).0 ≡ ok o
      → held store r x
        ≡ record (held store r (written_world p r w)) { runtime = some (with_status r (left w o)) }
      → let out = reconcile_runtime p (with_status r (left w o)) x in
        (out.0 ≡ none)
        × (out.1.writes ≡ x.writes ++ plan r)
        × (out.1.events ≡ x.events)
        × (held store r out.1 ≡ held store r x)
  second w x o valid found same =
      let s = left w o in
      let r' = with_status r s in
      let v = (validate_secret_references p r w).0 in
      let written = core_resources-Succeeds p willing r (checked_world p r w) in
      let good =
        subst (AsSpecified p r) (sym same)
          (core_resources-AsSpecified store owns r (checked_world p r w) written) in
      let checked = validate-Answers store r s w x (
        ap (λ (m : Managed). m.secret) (sym (validate-Keeps store r w))
        ∙ (sym ((core_resources-Apart store owns r (checked_world p r w) written).1)
            ∙ ap (λ (m : Managed). m.secret) (sym same))) in
      let serves =
        second-Serves store by_name willing r s x (written_world p r w) o good
          (ap (λ (u : ReferenceValidationResult). u.valid) (sym checked) ∙ valid) found
          (ap (λ (m : Managed). m.deployment) same) (ap (λ (m : Managed). m.service) same) equal in
      let settled = build_settles laws inplace p.now p.now r o v once named in
      let done =
        pass-stored p equal r' o x
          (subst (λ u. normalized p r' (build_runtime_status p.conditions p.now r' o u) ≡ s) checked
            settled)
          alive serves in
      let (wrote, silent) = served-writes p equal r' o x serves in
      (
        ap (λ (out : Option Error × World p.Cluster). out.0) done,
        ap (λ (out : Option Error × World p.Cluster). out.1.writes) done
            ∙ (wrote ∙ ap (λ l. x.writes ++ l) (plan-status r s)),
        ap (λ (out : Option Error × World p.Cluster). out.1.events) done ∙ silent,
        ap (λ (out : Option Error × World p.Cluster). held store r out.1) done
            ∙ (load-Keeps store r' (written_world p r' x)
                ∙ second-Keeps store by_name willing r s x good),
      )

  -- What is stated of a call of Reconcile and of the next, whose result is given.
  abbrev Idle : Option Error × World p.Cluster → Option Error × World p.Cluster → Type 0
  Idle first next =
      (first.0 ≡ none)
      × (next.0 ≡ none)
      × (next.1.writes ≡ first.1.writes ++ plan r)
      × (next.1.events ≡ first.1.events)
      × (held store r next.1 ≡ held store r first.1)

  -- Two calls of Reconcile in a row on a stored runtime: neither returns an error, and the second
  -- makes the plan's writes and no status update, emits no Event, and leaves all that is held as it
  -- is: the managed objects, and the runtime with its status. No call fails, the API server is a store
  -- that nobody else writes to, the references are valid, the runtime is not being deleted, its image
  -- has a name, and no condition type stood twice. Conditions are set and found as the library
  -- documents it, in place or at the end; semantic equality is equality of statuses; and an owner
  -- reference keeps the labels, is not set twice, and does not depend on the owner's status.
  pub pass_twice :
      (w : World p.Cluster)
      → (held store r w).runtime ≡ some r
      → (validate_secret_references p r w).0.valid ≡ true
      → let (x1, w1) = reconcile_body p (runtime_key r) w in
        let (x2, w2) = reconcile_body p (runtime_key r) w1 in
        (x1 ≡ none)
        × (x2 ≡ none)
        × (w2.writes ≡ w1.writes ++ plan r)
        × (w2.events ≡ w1.events)
        × (held store r w2 ≡ held store r w1)
  pass_twice w there valid =
      let g = got store r w in
      let secrets = ap (λ (m : Managed). m.secret) (got-Keeps store r w) in
      let checked = validate-Answers store r r.status w g (sym secrets) in
      let valid_then = ap (λ (u : ReferenceValidationResult). u.valid) (sym checked) ∙ valid in
      let there_then = ap (λ (m : Managed). m.runtime) (got-Keeps store r w) ∙ there in
      let (o, found) = observation-IsOk p willing r (written_world p r g) in
      let ends = pass-Leaves store owns willing equal r g o there_then alive valid_then found in
      let u = (reconcile_runtime p r g).1 in
      let r' = with_status r (left g o) in
      let (none_again, wrote, silent, kept) =
        second g (got store r' u) o valid_then found (got-Keeps store r' u ∙ ends) in
      subst (λ out. Idle out (reconcile_body p (runtime_key r) out.1))
        (sym (reconcile_body-stored store r w there))
        (subst (Idle (reconcile_runtime p r g))
          (sym (reconcile_body-stored store r' u (ap (λ (m : Managed). m.runtime) ends)))
          (
            (pass-succeeds p willing r g alive valid_then).0,
            none_again,
            wrote,
            silent,
            kept ∙ got-Keeps store r' u,
          ))
