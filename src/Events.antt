-- ===== src/Events.antt =====
-- internal/controller/runtime_events.go: the Kubernetes Events of a status transition, as the list
-- of calls of the recorder's Eventf. A nil recorder records nothing.
pub mod Transitions
pub mod Upgrades
pub mod Phases
pub mod Completions
pub mod Rounds
pub mod Once
pub mod Latest
pub mod Dates
pub mod Stuck
use trussium_operator.Prelude.{
  String, ◌<>◌, Bool, true, false, not, ◌&&◌, Option, none, some, List, [], ◌∷◌, ◌++◌, ◌==◌,
  if◌then◌else◌,
}
use trussium_operator.Kube.{NamespacedName}
use trussium_operator.Kube.Condition.{
  ConditionStatus, cond_true, cond_false, status_eqb, Condition, ConditionApi,
}
use trussium_operator.Kube.Errors.{Error, error_text}
use trussium_operator.Api.{TrussiumRuntime, TrussiumRuntimeStatus}
use trussium_operator.Status.Constants
use trussium_operator.Status.Conditions.{runtime_condition, condition_changed}

pub data EventType : Type 0 where
  normal warning : EventType

pub record Event : Type 0 where
  pub regarding : NamespacedName
  pub type : EventType
  pub reason : String
  pub action : String
  pub note : String

abbrev pub event_reason_runtime_progressing : String
event_reason_runtime_progressing = "RuntimeProgressing"

abbrev pub event_reason_runtime_ready : String
event_reason_runtime_ready = "RuntimeReady"

abbrev pub event_reason_runtime_recovered : String
event_reason_runtime_recovered = "RuntimeRecovered"

abbrev pub event_reason_runtime_scaled_to_zero : String
event_reason_runtime_scaled_to_zero = "RuntimeScaledToZero"

abbrev pub event_reason_configuration_invalid : String
event_reason_configuration_invalid = "ConfigurationInvalid"

abbrev pub event_reason_reconciliation_failed : String
event_reason_reconciliation_failed = "ReconciliationFailed"

abbrev pub event_reason_runtime_degraded : String
event_reason_runtime_degraded = "RuntimeDegraded"

abbrev pub event_reason_runtime_upgrade_started : String
event_reason_runtime_upgrade_started = "RuntimeUpgradeStarted"

abbrev pub event_reason_runtime_upgrade_completed : String
event_reason_runtime_upgrade_completed = "RuntimeUpgradeCompleted"

abbrev pub event_reason_runtime_upgrade_failed : String
event_reason_runtime_upgrade_failed = "RuntimeUpgradeFailed"

abbrev pub event_action_reconcile_runtime : String
event_action_reconcile_runtime = "ReconcileRuntime"

abbrev pub event_action_validate_configuration : String
event_action_validate_configuration = "ValidateConfiguration"

abbrev pub event_action_observe_runtime : String
event_action_observe_runtime = "ObserveRuntime"

abbrev pub event_action_upgrade_runtime : String
event_action_upgrade_runtime = "UpgradeRuntime"

abbrev pub runtime_key : TrussiumRuntime → NamespacedName
runtime_key r = record { namespace = r.meta.namespace; name = r.meta.name }

-- One call of Eventf, with its text formatted.
abbrev pub eventf : TrussiumRuntime → EventType → String → String → String → List Event
eventf r type reason action note =
    record { regarding = runtime_key r; type = type; reason = reason; action = action; note = note }
    ∷ []

abbrev pub has_status : ConditionStatus → Option Condition → Bool
has_status wanted none = false
has_status wanted (some c) = status_eqb c.status wanted

abbrev pub message_of : Option Condition → String
message_of none = ""
message_of (some c) = c.message

abbrev pub reason_of : Option Condition → String
reason_of none = ""
reason_of (some c) = c.reason

unfoldable pub valid_upgrade_event_images : String → String → Bool
valid_upgrade_event_images source destination =
    not (source == "") && not (destination == "") && not (source == destination)

module _ (m : ConditionApi) (r : TrussiumRuntime) (previous current : TrussiumRuntimeStatus) where
  unfoldable pub record_configuration_transition : List Event
  record_configuration_transition =
      let c = runtime_condition m current Constants.condition_type_configuration_valid in
      if not (condition_changed m previous current Constants.condition_type_configuration_valid)
      then []
      else if not (has_status cond_false c)
      then []
      else eventf r warning event_reason_configuration_invalid event_action_validate_configuration
          (message_of c)

  -- The tests behind the nil test on the current condition.
  abbrev degraded_events : Option Condition → List Event
  degraded_events none = []
  degraded_events (some c) =
      if status_eqb c.status cond_true
      then eventf r warning event_reason_runtime_degraded event_action_observe_runtime c.message
      else if not
          (has_status cond_true (runtime_condition m previous Constants.condition_type_degraded))
      then []
      else eventf r normal event_reason_runtime_recovered event_action_observe_runtime c.message

  unfoldable pub record_degraded_transition : List Event
  record_degraded_transition =
      if not (condition_changed m previous current Constants.condition_type_degraded)
      then []
      else degraded_events (runtime_condition m current Constants.condition_type_degraded)

  unfoldable pub record_progressing_transition : List Event
  record_progressing_transition =
      let c = runtime_condition m current Constants.condition_type_progressing in
      if not (condition_changed m previous current Constants.condition_type_progressing)
      then []
      else if not (has_status cond_true c)
      then []
      else eventf r normal event_reason_runtime_progressing event_action_reconcile_runtime
          (message_of c)

  unfoldable pub record_ready_transition : List Event
  record_ready_transition =
      let c = runtime_condition m current Constants.condition_type_ready in
      if not (condition_changed m previous current Constants.condition_type_ready)
      then []
      else if not (has_status cond_true c)
      then []
      else eventf r normal
          (if reason_of c == Constants.reason_scaled_to_zero
            then event_reason_runtime_scaled_to_zero
            else event_reason_runtime_ready)
          event_action_observe_runtime (message_of c)

  -- One case of the switch: the condition's status and the two images are tested first.
  abbrev upgrade_event : Condition → ConditionStatus → EventType → String → String → List Event
  upgrade_event c wanted type reason what =
      if not (status_eqb c.status wanted)
      then []
      else if not (valid_upgrade_event_images previous.last_successful_image current.desired_image)
      then []
      else eventf r type reason event_action_upgrade_runtime
          (what <> previous.last_successful_image <> " to " <> current.desired_image <> ".")

  abbrev upgrade_events : Option Condition → List Event
  upgrade_events none = []
  upgrade_events (some c) =
      if c.reason == Constants.reason_upgrade_in_progress
      then upgrade_event c cond_true normal event_reason_runtime_upgrade_started
          "Runtime image upgrade started from "
      else if c.reason == Constants.reason_upgrade_complete
      then upgrade_event c cond_false normal event_reason_runtime_upgrade_completed
          "Runtime image upgrade completed from "
      else if c.reason == Constants.reason_upgrade_failed
      then upgrade_event c cond_false warning event_reason_runtime_upgrade_failed
          "Runtime image upgrade failed from "
      else []

  unfoldable pub record_upgrade_transition : List Event
  record_upgrade_transition =
      if not (condition_changed m previous current Constants.condition_type_upgrading)
      then []
      else upgrade_events (runtime_condition m current Constants.condition_type_upgrading)

  -- The recorder is nil where the Boolean is false.
  unfoldable pub record_status_transition_events : Bool → List Event
  record_status_transition_events recorder =
      if not recorder
      then []
      else record_configuration_transition
        ++ (record_upgrade_transition
            ++ (record_degraded_transition
                ++ (record_progressing_transition ++ record_ready_transition)))

unfoldable pub record_reconciliation_failure : TrussiumRuntime → Error → Bool → List Event
record_reconciliation_failure r e recorder =
    if not recorder
    then []
    else eventf r warning event_reason_reconciliation_failed event_action_reconcile_runtime
        ("Runtime reconciliation failed: " <> error_text e)
