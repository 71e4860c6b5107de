-- ===== src/Status/Conditions.antt =====
-- How internal/controller/runtime_status.go writes, reads and compares conditions, and the update of
-- the status subresource's transition times. `now` is the instant of the reconciliation.
pub mod Lookup
pub mod Times
pub mod Written
pub mod Upsert
pub mod Timeless
use trussium_operator.Prelude.{
  ℕ, String, ◌<>◌, Bool, true, false, not, ◌||◌, Option, none, some, List, [], ◌∷◌, ◌==◌,
  if◌then◌else◌,
}
use trussium_operator.Prelude.Int.{ℤ, pos, ◌==ℤ◌, ltb_ℤ}
use trussium_operator.Prelude.Text.{itoa}
use trussium_operator.Kube.Condition.{
  ConditionStatus, cond_true, cond_false, status_eqb, Condition, ConditionApi,
}
use trussium_operator.Api.{TrussiumRuntimeStatus}
use trussium_operator.Status.Constants.{
  condition_type_available, reason_scaled_to_zero, reason_runtime_available,
  reason_runtime_unavailable,
}

-- slices.Clone of an immutable list is the list.
abbrev pub copy_runtime_status : TrussiumRuntimeStatus → TrussiumRuntimeStatus
copy_runtime_status s = s

-- The changed statuses or reasons of conditionChanged.
abbrev pub differs : Option Condition → Option Condition → Bool
differs previous none = false
differs none (some current) = true
differs (some previous) (some current) =
    not (status_eqb previous.status current.status) || not (previous.reason == current.reason)

-- One turn of the loop of preserveRuntimeConditionTransitionTimes.
abbrev pub preserve_time : Option Condition → Condition → Condition
preserve_time none desired = desired
preserve_time (some current) desired =
    if status_eqb current.status desired.status
    then record desired { last_transition_time = current.last_transition_time }
    else desired

module _ (m : ConditionApi) where
  abbrev pub runtime_condition : TrussiumRuntimeStatus → String → Option Condition
  runtime_condition s t = m.find_status_condition s.conditions t

  unfoldable pub condition_changed : TrussiumRuntimeStatus → TrussiumRuntimeStatus → String → Bool
  condition_changed previous current t =
      differs (runtime_condition previous t) (runtime_condition current t)

  unfoldable pub preserve_times : List Condition → List Condition → List Condition
  preserve_times current [] = []
  preserve_times current (c ∷ rest) =
      preserve_time (m.find_status_condition current c.type) c ∷ preserve_times current rest

  unfoldable pub preserve_runtime_condition_transition_times :
      TrussiumRuntimeStatus → TrussiumRuntimeStatus → TrussiumRuntimeStatus
  preserve_runtime_condition_transition_times current desired = record desired {
    conditions = preserve_times current.conditions desired.conditions;
  }

  module _ (now : ℕ) where
    unfoldable pub set_runtime_condition :
        TrussiumRuntimeStatus
        → ℤ
        → String
        → ConditionStatus
        → String
        → String
        → TrussiumRuntimeStatus
    set_runtime_condition s generation t status reason message = record s {
      conditions = m.set_status_condition now s.conditions (record {
        type = t;
        status = status;
        observed_generation = generation;
        last_transition_time = 0;
        reason = reason;
        message = message;
      });
    }

    unfoldable pub set_availability_condition :
        TrussiumRuntimeStatus → ℤ → ℤ → TrussiumRuntimeStatus
    set_availability_condition s generation desired =
        if desired ==ℤ pos 0
        then set_runtime_condition s generation condition_type_available cond_false
            reason_scaled_to_zero "No runtime replicas are requested."
        else if ltb_ℤ (pos 0) s.available_replicas
        then set_runtime_condition s generation condition_type_available cond_true
            reason_runtime_available
            (itoa s.available_replicas <> " runtime replica(s) are available.")
        else set_runtime_condition s generation condition_type_available cond_false
            reason_runtime_unavailable "No runtime replicas are currently available."
