-- ===== src/Status/Build/Failure.antt =====
-- The status after a failed reconciliation.
use trussium_operator.Prelude.{ℕ, ◌≡◌, refl, ◌<>◌, true, false, Option, none, some, arith}
use trussium_operator.Kube.Workload.{Deployment}
use trussium_operator.Kube.Condition.{cond_true, cond_false, ConditionApi, IsConditionApi}
use trussium_operator.Kube.Errors.{Error, error_text}
use trussium_operator.Api.{TrussiumRuntime}
use trussium_operator.Status.References.{valid_reference_validation}
use trussium_operator.Status.Rollout.{RuntimeObservation}
use trussium_operator.Status.Conditions.Lookup.{Verdict, read, read-set}
use trussium_operator.Status.Base.{available_count}
use trussium_operator.Status.Base.Outcome.{row, is_serving, Reports, table}
use trussium_operator.Status.Base.Phases.{phase_at}
use trussium_operator.Resources.Scale.{desired_replica_count}
use trussium_operator.Status.Build.{build_reconciliation_failure_status}
use trussium_operator.Status.Build.Meaning.{build-Reports}

table-valid :
    (r : TrussiumRuntime) (d : Option Deployment)
    → (table
        (phase_at r d)
        (is_serving (desired_replica_count r d) (available_count d))).configuration_valid
      ≡ true
table-valid r none = refl
table-valid r (some d) = ground arith

module _ {m : ConditionApi} (laws : IsConditionApi m) (now : ℕ) where
  -- A failed reconciliation is reported as not progressing, not ready and degraded, with the text of
  -- the error. ConfigurationValid is stated as holding whatever the error is, also where the check of
  -- a Secret failed, and the availability as the observation shows it.
  -- Conditions are set and found as the library documents it.
  pub build_failure-Reports :
      (r : TrussiumRuntime) (o : RuntimeObservation) (e : Error)
      → let s = build_reconciliation_failure_status m now r o e in
        let plain =
          table
            (phase_at r o.deployment)
            (is_serving (desired_replica_count r o.deployment) (available_count o.deployment)) in
        let failure : Verdict = record {
          status = cond_false;
          reason = "ReconciliationFailed";
          message = "Runtime reconciliation failed: " <> error_text e;
          generation = r.meta.generation;
        } in
        Reports m s r.meta.generation (row true false plain.available false true)
        × (read m s "Ready" ≡ some failure)
        × (read m s "Degraded" ≡ some (record failure { status = cond_true }))
  unfolding build_reconciliation_failure_status
  build_failure-Reports r o e =
      let base = build-Reports laws now r o valid_reference_validation in
      (
        record {
          says_valid =
              simp (read-set laws now) (rw (table-valid r o.deployment) at base.says_valid);
          says_progressing = simp (read-set laws now);
          says_available = simp (read-set laws now) base.says_available;
          says_ready = simp (read-set laws now);
          says_degraded = simp (read-set laws now);
        },
        simp (read-set laws now),
        simp (read-set laws now),
      )
