-- ===== src/Reconcile/Pass/Outcome.antt =====
-- What a pass returns: no error means that everything was written, and an error is announced.
use mathlib.Core.List.{append-nil}
use trussium_operator.Prelude.{
  ◌≡◌, refl, ap, ◌<>◌, Bool, true, false, ◌∷◌, if◌then◌else◌, subst, ◌∙◌, inl, inr, Option, none,
  some, List, [], ◌++◌, Option-cases, is_some,
}
use trussium_operator.Kube.{NamespacedName}
use trussium_operator.Kube.Errors.{Error, Result, ok, err, error_text}
use trussium_operator.Api.{TrussiumRuntime, TrussiumRuntimeStatus}
use trussium_operator.Status.References.{ReferenceValidationResult}
use trussium_operator.Status.Rollout.{RuntimeObservation}
use trussium_operator.Status.Conditions.{copy_runtime_status}
use trussium_operator.Status.Build.{build_runtime_status, build_reconciliation_failure_status}
use trussium_operator.Events.{Event, warning, runtime_key, record_reconciliation_failure}
use trussium_operator.Reconcile.Platform.{Platform}
use trussium_operator.Reconcile.Monad.{World, M}
use trussium_operator.Reconcile.Load.{validate_secret_references, load_runtime_observation}
use trussium_operator.Reconcile.Load.Reading.{validate-Silent, load-Silent}
use trussium_operator.Reconcile.Resources.{reconcile_core_resources}
use trussium_operator.Reconcile.Resources.Order.{core_resources-Follows}
use trussium_operator.Reconcile.Update.{
  Updated, update_outcome, with_status, normalized, update_runtime_status,
}
use trussium_operator.Reconcile.Update.Writes.{update-AtMostStatus}
use trussium_operator.Reconcile.Pass.{
  finish_failure, joined, joined_option, observed_or_empty, finish, report_observed,
  handle_reconciliation_failure, reconcile_invalid_configuration, after_resources, after_validation,
  reconcile_runtime, transition_events,
}
use trussium_operator.Reconcile.Pass.Effects.{either}

-- The Event of a failure, about the object with the key.
abbrev pub failure_event : NamespacedName → Error → Event
failure_event k e = record {
  regarding = k;
  type = warning;
  reason = "ReconciliationFailed";
  action = "ReconcileRuntime";
  note = "Runtime reconciliation failed: " <> error_text e;
}

-- Where an error is returned, the last Event is its announcement, if there is a recorder.
abbrev pub Told : Bool → NamespacedName → List Event → Option Error → List Event → Type 0
Told recorder k before none after = Unit
Told recorder k before (some e) after =
    (between : List Event) × (after
      ≡ (before ++ between) ++ (if recorder then failure_event k e ∷ [] else []))

-- The server returns the object of the update.
abbrev pub KeepsName : Platform → Type 0
KeepsName p =
    (r x : TrussiumRuntime) (c : p.Cluster)
    → (p.update_status r c).0 ≡ ok x
    → runtime_key x ≡ runtime_key r

failure-event :
    (u r : TrussiumRuntime) (e : Error) (recorder : Bool)
    → runtime_key u ≡ runtime_key r
    → record_reconciliation_failure u e recorder
      ≡ (if recorder then failure_event (runtime_key r) e ∷ [] else [])
unfolding record_reconciliation_failure
failure-event u r e true same = ap (λ k. failure_event k e ∷ []) same
failure-event u r e false same = refl

module _ (p : Platform) (names : KeepsName p) (r : TrussiumRuntime) where
  -- The runtime that an update returns has the key of the one it was given.
  abbrev Same : Updated → Type 0
  Same u = runtime_key u.runtime ≡ runtime_key r

  outcome-Same :
      (sent : TrussiumRuntime) (c : p.Cluster) (x : Result TrussiumRuntime)
      → (p.update_status sent c).0 ≡ x
      → runtime_key (update_outcome sent x).runtime ≡ runtime_key sent
  outcome-Same sent c (ok x) h = names sent x c h
  outcome-Same sent c (err e) h = refl

  update-Same :
      (desired : TrussiumRuntimeStatus) (w : World p.Cluster)
      → Same (update_runtime_status p r desired w).0
  unfolding update_runtime_status
  update-Same desired w =
      either (λ (out : Updated × World p.Cluster). runtime_key out.0.runtime ≡ runtime_key r)
        (p.deep_equal r.status (normalized p r desired)) _ _ w (λ e. refl)
        (λ e. outcome-Same (with_status r (normalized p r desired)) w.cluster _ refl)

  abbrev Announced : List Event → Option Error → List Event → Type 0
  Announced = Told p.recorder (runtime_key r)

  abbrev Announces : M p.Cluster (Option Error) → Type 0
  Announces m = (w : World p.Cluster) → Announced w.events (m w).0 (m w).1.events

  -- Before it, steps that emit nothing.
  carry :
      {before : List Event} (m : M p.Cluster (Option Error)) (w : World p.Cluster)
      → w.events ≡ before
      → Announces m
      → Announced before (m w).0 (m w).1.events
  carry m w h announces = subst (λ l. Announced l (m w).0 (m w).1.events) h (announces w)

  finish-Announces :
      (previous : TrussiumRuntimeStatus) (u : Updated) → Same u → Announces (finish p previous u)
  finish-Announces previous u same w = elim (Option-cases u.error) [
    | inl e ↦ rw e tt
    | inr (e, h) ↦
        rw h (
          [],
          ap (λ l. w.events ++ l) (failure-event u.runtime r e p.recorder same) ∙ rw append-nil,
        )
  ]

  finish_failure-Announces :
      (previous : TrussiumRuntimeStatus) (e : Error) (u : Updated)
      → Same u
      → Announces (finish_failure p previous e u)
  finish_failure-Announces previous e u same w = (
    transition_events p previous u,
    ap (λ l. (w.events ++ transition_events p previous u) ++ l)
        (failure-event u.runtime r (joined_option e u.error) p.recorder same),
  )

  handle-Announces :
      (previous : TrussiumRuntimeStatus) (e : Error)
      → Announces (handle_reconciliation_failure p r previous e)
  unfolding handle_reconciliation_failure
  handle-Announces previous e w =
      let (observation, w1) = load_runtime_observation p r w in
      let e' = joined e observation in
      let desired =
        build_reconciliation_failure_status p.conditions p.now r (observed_or_empty observation)
          e' in
      let (u, w2) = update_runtime_status p r desired w1 in
      carry (finish_failure p previous e' u) w2
        ((update-AtMostStatus p r desired w1).1 ∙ (load-Silent p r w).1)
        (finish_failure-Announces previous e' u (update-Same desired w1))

  report-Announces :
      (previous : TrussiumRuntimeStatus) (v : ReferenceValidationResult)
      (x : Result RuntimeObservation)
      → Announces (report_observed p r previous v x)
  report-Announces previous v (err e) w = handle-Announces previous e w
  report-Announces previous v (ok o) w =
      let desired = build_runtime_status p.conditions p.now r o v in
      let (u, w') = update_runtime_status p r desired w in
      carry (finish p previous u) w' (update-AtMostStatus p r desired w).1
        (finish-Announces previous u (update-Same desired w))

  invalid-Announces :
      (previous : TrussiumRuntimeStatus) (v : ReferenceValidationResult)
      → Announces (reconcile_invalid_configuration p r previous v)
  unfolding reconcile_invalid_configuration
  invalid-Announces previous v w =
      let (observation, w') = load_runtime_observation p r w in
      carry (report_observed p r previous v observation) w' (load-Silent p r w).1
        (report-Announces previous v observation)

  resources-Announces :
      (previous : TrussiumRuntimeStatus) (v : ReferenceValidationResult) (x : Result (Unit {0}))
      → Announces (after_resources p r previous v x)
  resources-Announces previous v (err e) w = handle-Announces previous e w
  resources-Announces previous v (ok u) w =
      let (observation, w') = load_runtime_observation p r w in
      carry (report_observed p r previous v observation) w' (load-Silent p r w).1
        (report-Announces previous v observation)

  core-Announces :
      (previous : TrussiumRuntimeStatus) (v : ReferenceValidationResult) (w : World p.Cluster)
      → let (result, w') = reconcile_core_resources p r w in
        let out = after_resources p r previous v result w' in Announced w.events out.0 out.1.events
  core-Announces previous v w =
      let (result, w') = reconcile_core_resources p r w in
      let (done, rest, whole, wrote, silent, complete) = core_resources-Follows p r w in
      carry (after_resources p r previous v result) w' silent
        (resources-Announces previous v result)

  validation-Announces :
      (previous : TrussiumRuntimeStatus) (v : ReferenceValidationResult) (x : Option Error)
      → Announces (after_validation p r previous v x)
  validation-Announces previous v (some e) w = handle-Announces previous e w
  validation-Announces previous v none w =
      either (λ out. Announced w.events out.0 out.1.events) v.valid _ _ w
        (λ h. core-Announces previous v w) (λ h. invalid-Announces previous v w)

  -- Every error that a pass over a runtime returns is announced: its last Event is a warning about
  -- the runtime with the reason ReconciliationFailed and the error's text, if there is a recorder.
  -- The server answers an update of the status with the object of that name.
  pub pass-Told :
      (w : World p.Cluster)
      → let out = reconcile_runtime p r w in
        Told p.recorder (runtime_key r) w.events out.0 out.1.events
  unfolding reconcile_runtime
  pass-Told w =
      let (v, w') = validate_secret_references p r w in
      either (λ out. Announced w.events out.0 out.1.events) (is_some r.meta.deletion_timestamp) _ _
        w (λ d. tt)
        (λ d.
          carry (after_validation p r (copy_runtime_status r.status) v v.error) w'
            (validate-Silent p r w).1
            (validation-Announces (copy_runtime_status r.status) v v.error))
