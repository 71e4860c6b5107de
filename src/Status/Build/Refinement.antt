-- ===== src/Status/Build/Refinement.antt =====
-- The status of a reconciliation as condition writes on the conditions that are stored, times left
-- out: buildRuntimeStatus and buildReconciliationFailureStatus implement it.
use trussium_operator.Prelude.{
  ℕ, ◌≡◌, ◌≢◌, refl, sym, ap, ◌∙◌, String, ◌<>◌, true, false, Option, some, List, [], ◌∷◌, ◌++◌,
  map, Bool-cases, inl, inr,
}
use trussium_operator.Kube.Condition.{Condition, ConditionApi, IsConditionApi, SetsInPlace}
use trussium_operator.Kube.Errors.{Error, error_text}
use trussium_operator.Api.{TrussiumRuntime, TrussiumRuntimeStatus}
use trussium_operator.Resources.Identity.{runtime_image}
use trussium_operator.Resources.Scale.{
  desired_replica_count, autoscaling_enabled, initial_deployment_replicas,
  desired_autoscaling_min_replicas, desired_replicas,
}
use trussium_operator.Status.Constants.{
  condition_type_upgrading, condition_type_progressing, condition_type_ready,
  condition_type_degraded, reason_reconciliation_failed,
}
use trussium_operator.Status.References.{ReferenceValidationResult, valid_reference_validation}
use trussium_operator.Status.Rollout.{
  RuntimeObservation, observe_deployment_rollout, deployment_current_image,
}
use trussium_operator.Status.Conditions.{set_runtime_condition}
use trussium_operator.Status.Conditions.Upsert.{
  find, find-upsert, upsert, applied, applied_again, holds, find-applied,
}
use trussium_operator.Status.Conditions.Timeless.{bare, timeless, written, bare-set}
use trussium_operator.Status.Base.{observed_status, build_base_runtime_status}
use trussium_operator.Status.Base.Writes.{says, base_writes}
use trussium_operator.Status.Base.Refinement.{timeless-build_base, base-no_upgrading}
use trussium_operator.Status.Upgrade.{apply_upgrade_status}
use trussium_operator.Status.Upgrade.Steps.{is_rolled_out}
use trussium_operator.Status.Upgrade.Writes.{
  upgrade_write, next_last, upgrade_write_again, type-upgrade_write,
}
use trussium_operator.Status.Upgrade.Refinement.{timeless-upgrade}
use trussium_operator.Status.Build.{build_runtime_status, build_reconciliation_failure_status}

applied-append : (ws vs cs : List Condition) → applied (ws ++ vs) cs ≡ applied vs (applied ws cs)
applied-append [] vs cs = refl
applied-append (w ∷ ws) vs cs = applied-append ws vs (upsert w cs)

-- The writes of one reconciliation, the last ones `failure`, from the last successful image and the
-- conditions that are stored, and the status they give.
module _ (r : TrussiumRuntime) (o : RuntimeObservation) (v : ReferenceValidationResult)
    (failure : List Condition) where
  abbrev pub decided : String → Option Condition → Condition
  decided =
      upgrade_write r.meta.generation (observe_deployment_rollout r o.deployment)
        (deployment_current_image o.deployment) (runtime_image r.spec.image)

  abbrev pub moved : String → String
  moved =
      next_last (observe_deployment_rollout r o.deployment) (deployment_current_image o.deployment)
        (runtime_image r.spec.image)

  abbrev pub all_writes : String → List Condition → List Condition
  all_writes last cs =
      base_writes r o v ++ (decided last (find cs condition_type_upgrading) ∷ failure)

  abbrev pub status_from : String → List Condition → TrussiumRuntimeStatus
  status_from last cs = record (observed_status r o) {
    last_successful_image = moved last;
    conditions = applied (all_writes last cs) cs;
  }

  moved_again : (last : String) → moved (moved last) ≡ moved last
  moved_again last =
      elim (Bool-cases (
        is_rolled_out (observe_deployment_rollout r o.deployment)
          (deployment_current_image o.deployment) (runtime_image r.spec.image))) [
            | inl e ↦ rw e
            | inr e ↦ rw e
          ]

  module _ (quiet : holds condition_type_upgrading failure ≡ false) where
    find-upgrading :
        (last : String) (cs : List Condition)
        → find (applied (all_writes last cs) cs) condition_type_upgrading
          ≡ some (decided last (find cs condition_type_upgrading))
    find-upgrading last cs =
        let w = decided last (find cs condition_type_upgrading) in
        ap (λ l. find l condition_type_upgrading)
          (applied-append (base_writes r o v) (w ∷ failure) cs)
        ∙ (find-applied condition_type_upgrading failure _ quiet
            ∙ (find-upsert w (applied (base_writes r o v) cs) condition_type_upgrading
                ∙ rw (
                    type-upgrade_write r.meta.generation (observe_deployment_rollout r o.deployment)
                      (deployment_current_image o.deployment) (runtime_image r.spec.image) last
                      cs)))

    -- From the status it gives, the reconciliation gives the same status.
    pub status_from_again :
        (last : String) (cs : List Condition)
        → runtime_image r.spec.image ≢ ""
        → status_from (moved last) (applied (all_writes last cs) cs) ≡ status_from last cs
    status_from_again last cs named =
        let w = decided last (find cs condition_type_upgrading) in
        let same : decided (moved last)
              (find (applied (all_writes last cs) cs) condition_type_upgrading)
            ≡ w =
          ap (decided (moved last)) (find-upgrading last cs)
          ∙ upgrade_write_again r.meta.generation (observe_deployment_rollout r o.deployment)
              (deployment_current_image o.deployment) (runtime_image r.spec.image) last
              (find cs condition_type_upgrading) named in
        ap
          (λ u. record (observed_status r o) {
            last_successful_image = moved (moved last);
            conditions =
                applied (base_writes r o v ++ (u ∷ failure)) (applied (all_writes last cs) cs);
          })
          same
        ∙ (ap
              (λ l. record (observed_status r o) {
                last_successful_image = l;
                conditions = applied (all_writes last cs) (applied (all_writes last cs) cs);
              })
              (moved_again last)
            ∙ ap
                (λ l. record (observed_status r o) {
                  last_successful_image = moved last;
                  conditions = l;
                })
                (applied_again (all_writes last cs) cs))

-- What buildReconciliationFailureStatus writes over it.
abbrev pub failure_writes : TrussiumRuntime → Error → List Condition
failure_writes r e =
    let message = "Runtime reconciliation failed: " <> error_text e in
    says r.meta.generation condition_type_progressing false reason_reconciliation_failed message
    ∷ says r.meta.generation condition_type_ready false reason_reconciliation_failed message
    ∷ says r.meta.generation condition_type_degraded true reason_reconciliation_failed message
    ∷ []

-- The status before plays no other part.
status_from-status :
    (r : TrussiumRuntime) (s : TrussiumRuntimeStatus) (o : RuntimeObservation)
    (v : ReferenceValidationResult) (failure : List Condition) (last : String) (cs : List Condition)
    → status_from (record r { status = s }) o v failure last cs ≡ status_from r o v failure last cs
unfolding base_writes observe_deployment_rollout desired_replica_count autoscaling_enabled
    initial_deployment_replicas desired_autoscaling_min_replicas desired_replicas
status_from-status r s o v failure last cs = refl

module _ {m : ConditionApi} (laws : IsConditionApi m) (inplace : SetsInPlace m) (now : ℕ) where
  -- The status that is built, times left out.
  timeless-build :
      (r : TrussiumRuntime) (o : RuntimeObservation) (v : ReferenceValidationResult)
      → timeless (build_runtime_status m now r o v)
        ≡ status_from r o v [] r.status.last_successful_image (map bare r.status.conditions)
  unfolding build_runtime_status apply_upgrade_status
  timeless-build r o v =
      let last = r.status.last_successful_image in
      let cs = map bare r.status.conditions in
      let status : Condition → List Condition → TrussiumRuntimeStatus = λ u l.
        record (observed_status r o) {
          last_successful_image = moved r o v [] last;
          conditions = applied (u ∷ []) l;
        } in
      timeless-upgrade laws inplace now r.meta.generation
        (observe_deployment_rollout r o.deployment) (deployment_current_image o.deployment)
        (runtime_image r.spec.image)
        (record (build_base_runtime_status m now r o v) {
          desired_image = runtime_image r.spec.image;
        })
      ∙ (ap
            (λ (t : TrussiumRuntimeStatus).
              written
                (decided r o v [] t.last_successful_image
                    (find t.conditions condition_type_upgrading)
                  ∷ [])
                (record t {
                  desired_image = runtime_image r.spec.image;
                  last_successful_image = moved r o v [] t.last_successful_image;
                }))
            (timeless-build_base laws inplace now r o v)
          ∙ (ap (λ before. status (decided r o v [] last before) (applied (base_writes r o v) cs))
                (find-applied condition_type_upgrading (base_writes r o v) cs
                  (base-no_upgrading r o v))
              ∙ ap
                  (λ l. record (observed_status r o) {
                    last_successful_image = moved r o v [] last;
                    conditions = l;
                  })
                  (sym (
                    applied-append (base_writes r o v)
                      (decided r o v [] last (find cs condition_type_upgrading) ∷ []) cs))))

  three :
      (s : TrussiumRuntimeStatus) (a b c : Condition)
      → timeless (record s {
        conditions =
            m.set_status_condition now
              (m.set_status_condition now (m.set_status_condition now s.conditions a) b)
              c;
      })
        ≡ written (bare a ∷ bare b ∷ bare c ∷ []) (timeless s)
  three s a b c =
      rw (bare-set laws inplace now, bare-set laws inplace now, bare-set laws inplace now)

  timeless-failure :
      (r : TrussiumRuntime) (o : RuntimeObservation) (e : Error)
      → timeless (build_reconciliation_failure_status m now r o e)
        ≡ status_from r o valid_reference_validation
            (failure_writes r e)
            r.status.last_successful_image
            (map bare r.status.conditions)
  unfolding build_reconciliation_failure_status set_runtime_condition
  timeless-failure r o e =
      let v = valid_reference_validation in
      let last = r.status.last_successful_image in
      let cs = map bare r.status.conditions in
      let u = decided r o v [] last (find cs condition_type_upgrading) in
      let status : List Condition → TrussiumRuntimeStatus = λ l. record (observed_status r o) {
        last_successful_image = moved r o v [] last;
        conditions = l;
      } in
      three (build_runtime_status m now r o v) _ _ _
      ∙ (ap (written (failure_writes r e)) (timeless-build r o v)
          ∙ (ap (λ l. status (applied (failure_writes r e) l))
                (applied-append (base_writes r o v) (u ∷ []) cs)
              ∙ ap status (sym (applied-append (base_writes r o v) (u ∷ failure_writes r e) cs))))

  -- The same with another status before.
  pub timeless-build_at :
      (r : TrussiumRuntime) (s : TrussiumRuntimeStatus) (o : RuntimeObservation)
      (v : ReferenceValidationResult)
      → timeless (build_runtime_status m now (record r { status = s }) o v)
        ≡ status_from r o v [] s.last_successful_image (map bare s.conditions)
  timeless-build_at r s o v =
      timeless-build (record r { status = s }) o v
      ∙ status_from-status r s o v [] s.last_successful_image (map bare s.conditions)

  pub timeless-failure_at :
      (r : TrussiumRuntime) (s : TrussiumRuntimeStatus) (o : RuntimeObservation) (e : Error)
      → timeless (build_reconciliation_failure_status m now (record r { status = s }) o e)
        ≡ status_from r o valid_reference_validation
            (failure_writes r e)
            s.last_successful_image
            (map bare s.conditions)
  timeless-failure_at r s o e =
      timeless-failure (record r { status = s }) o e
      ∙ status_from-status r s o valid_reference_validation (failure_writes r e)
          s.last_successful_image (map bare s.conditions)
