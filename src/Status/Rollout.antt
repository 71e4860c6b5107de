-- ===== src/Status/Rollout.antt =====
-- What the managed Deployment and Service show, of internal/controller/runtime_status.go.
pub mod Completion
use trussium_operator.Prelude.{
  String, ◌<>◌, Bool, true, false, not, ◌&&◌, ◌||◌, Option, none, some, List, [], ◌∷◌, ◌==◌,
  if◌then◌else◌,
}
use trussium_operator.Prelude.Int.{ℤ, pos, ◌==ℤ◌, ltb_ℤ}
use trussium_operator.Prelude.Text.{itoa}
use trussium_operator.Kube.Condition.{status_eqb, cond_true, cond_false}
use trussium_operator.Kube.Workload.{
  Container, DeploymentCondition, Deployment, deployment_progressing, deployment_replica_failure,
}
use trussium_operator.Kube.Network.{Service, ServicePort}
use trussium_operator.Api.{TrussiumRuntime}
use trussium_operator.Resources.Constants.{runtime_container_name}
use trussium_operator.Resources.Scale.{desired_replica_count}
use trussium_operator.Status.Constants.{reason_progress_deadline_exceeded, reason_replica_failure}

pub record RuntimeObservation : Type 0 where
  pub deployment : Option Deployment
  pub service : Option Service

pub data DeploymentRolloutState : Type 0 where
  rollout_progressing rollout_complete rollout_failed : DeploymentRolloutState

abbrev pub is_deadline_exceeded : DeploymentCondition → Bool
is_deadline_exceeded c =
    c.type == deployment_progressing
    && (status_eqb c.status cond_false && c.reason == reason_progress_deadline_exceeded)

abbrev pub is_replica_failure : DeploymentCondition → Bool
is_replica_failure c = c.type == deployment_replica_failure && status_eqb c.status cond_true

-- The loop of deploymentHasRolloutFailure.
unfoldable pub has_failure_condition : List DeploymentCondition → Bool
has_failure_condition [] = false
has_failure_condition (c ∷ rest) =
    if is_deadline_exceeded c
    then true
    else if is_replica_failure c
    then true
    else has_failure_condition rest

unfoldable pub deployment_has_rollout_failure : Option Deployment → Bool
unfolding has_failure_condition
deployment_has_rollout_failure none = false
deployment_has_rollout_failure (some d) = has_failure_condition d.status.conditions

-- The part of observeDeploymentRollout behind the nil test, with the desired count.
unfoldable pub rollout_of : Deployment → ℤ → DeploymentRolloutState
unfolding deployment_has_rollout_failure
rollout_of d desired =
    if deployment_has_rollout_failure (some d)
    then rollout_failed
    else if ltb_ℤ d.status.observed_generation d.meta.generation
    then rollout_progressing
    else if desired ==ℤ pos 0
    then (if not (d.status.replicas ==ℤ pos 0)
          || not (d.status.updated_replicas ==ℤ pos 0)
          || not (d.status.ready_replicas ==ℤ pos 0)
          || not (d.status.available_replicas ==ℤ pos 0)
          || not (d.status.unavailable_replicas ==ℤ pos 0)
        then rollout_progressing
        else rollout_complete)
    else if not (d.status.updated_replicas ==ℤ desired)
    then rollout_progressing
    else if not (d.status.replicas ==ℤ desired)
    then rollout_progressing
    else if not (d.status.ready_replicas ==ℤ desired)
    then rollout_progressing
    else if not (d.status.available_replicas ==ℤ desired)
    then rollout_progressing
    else if not (d.status.unavailable_replicas ==ℤ pos 0)
    then rollout_progressing
    else rollout_complete

unfoldable pub observe_deployment_rollout :
    TrussiumRuntime → Option Deployment → DeploymentRolloutState
unfolding rollout_of
observe_deployment_rollout r none = rollout_progressing
observe_deployment_rollout r (some d) = rollout_of d (desired_replica_count r (some d))

-- `condition.Message`, or a default where it is empty.
abbrev message_or : String → String → String
message_or message default = if message == "" then default else message

-- The first loop of deploymentFailure.
unfoldable pub find_deadline_exceeded : List DeploymentCondition → Option (String × String)
find_deadline_exceeded [] = none
find_deadline_exceeded (c ∷ rest) =
    if is_deadline_exceeded c
    then some (
      reason_progress_deadline_exceeded,
      message_or c.message "The runtime Deployment exceeded its progress deadline.",
    )
    else find_deadline_exceeded rest

-- The second loop.
unfoldable pub find_replica_failure : List DeploymentCondition → Option (String × String)
find_replica_failure [] = none
find_replica_failure (c ∷ rest) =
    if is_replica_failure c
    then some (
      reason_replica_failure,
      message_or c.message "The runtime Deployment reported a replica failure.",
    )
    else find_replica_failure rest

abbrev first_of_two : Option (String × String) → Option (String × String) → Option (String × String)
first_of_two (some x) other = some x
first_of_two none other = other

-- Reason and message, where the source's third result is true.
unfoldable pub deployment_failure : Deployment → Option (String × String)
unfolding find_deadline_exceeded find_replica_failure
deployment_failure d =
    first_of_two (find_deadline_exceeded d.status.conditions)
      (find_replica_failure d.status.conditions)

abbrev first_image : List Container → String
first_image [] = ""
first_image (c ∷ _) = c.image

-- The loop of deploymentCurrentImage, with what it returns after the loop.
unfoldable pub image_among : List Container → String → String
image_among [] otherwise = otherwise
image_among (c ∷ rest) otherwise =
    if c.name == runtime_container_name then c.image else image_among rest otherwise

unfoldable pub deployment_current_image : Option Deployment → String
unfolding image_among
deployment_current_image none = ""
deployment_current_image (some d) =
    image_among d.spec.template.spec.containers (first_image d.spec.template.spec.containers)

abbrev endpoint_at : Service → List ServicePort → String
endpoint_at s [] = ""
endpoint_at s (p ∷ _) =
    "http://" <> s.meta.name <> "." <> s.meta.namespace <> ".svc.cluster.local:" <> itoa p.port

unfoldable pub runtime_service_endpoint : Option Service → String
unfolding itoa
runtime_service_endpoint none = ""
runtime_service_endpoint (some s) = endpoint_at s s.spec.ports
