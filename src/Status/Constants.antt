-- ===== src/Status/Constants.antt =====
-- The condition types and reasons of internal/controller/runtime_status.go.
use trussium_operator.Prelude.{String}

abbrev pub condition_type_configuration_valid : String
condition_type_configuration_valid = "ConfigurationValid"

abbrev pub condition_type_progressing : String
condition_type_progressing = "Progressing"

abbrev pub condition_type_available : String
condition_type_available = "Available"

abbrev pub condition_type_ready : String
condition_type_ready = "Ready"

abbrev pub condition_type_degraded : String
condition_type_degraded = "Degraded"

abbrev pub condition_type_upgrading : String
condition_type_upgrading = "Upgrading"

abbrev pub reason_references_resolved : String
reason_references_resolved = "ReferencesResolved"

abbrev pub reason_secret_not_found : String
reason_secret_not_found = "SecretNotFound"

abbrev pub reason_reference_check_failed : String
reason_reference_check_failed = "ReferenceCheckFailed"

abbrev pub reason_deployment_progressing : String
reason_deployment_progressing = "DeploymentProgressing"

abbrev pub reason_deployment_generation_pending : String
reason_deployment_generation_pending = "DeploymentGenerationPending"

abbrev pub reason_reconciliation_complete : String
reason_reconciliation_complete = "ReconciliationComplete"

abbrev pub reason_configuration_invalid : String
reason_configuration_invalid = "ConfigurationInvalid"

abbrev pub reason_deployment_failed : String
reason_deployment_failed = "DeploymentFailed"

abbrev pub reason_scaled_to_zero : String
reason_scaled_to_zero = "ScaledToZero"

abbrev pub reason_runtime_available : String
reason_runtime_available = "RuntimeAvailable"

abbrev pub reason_runtime_unavailable : String
reason_runtime_unavailable = "RuntimeUnavailable"

abbrev pub reason_runtime_ready : String
reason_runtime_ready = "RuntimeReady"

abbrev pub reason_runtime_not_ready : String
reason_runtime_not_ready = "RuntimeNotReady"

abbrev pub reason_as_expected : String
reason_as_expected = "AsExpected"

abbrev pub reason_progress_deadline_exceeded : String
reason_progress_deadline_exceeded = "ProgressDeadlineExceeded"

abbrev pub reason_replica_failure : String
reason_replica_failure = "ReplicaFailure"

abbrev pub reason_reconciliation_failed : String
reason_reconciliation_failed = "ReconciliationFailed"

abbrev pub reason_no_upgrade : String
reason_no_upgrade = "NoUpgrade"

abbrev pub reason_upgrade_in_progress : String
reason_upgrade_in_progress = "UpgradeInProgress"

abbrev pub reason_upgrade_complete : String
reason_upgrade_complete = "UpgradeComplete"

abbrev pub reason_upgrade_failed : String
reason_upgrade_failed = "UpgradeFailed"
