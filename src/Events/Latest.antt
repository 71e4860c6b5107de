-- ===== src/Events/Latest.antt =====
-- The last successful image over many reconciliations, of specifications that may change in between.
use trussium_operator.Prelude.{String, Option, none, some, List, [], ◌∷◌, ◌==◌, if◌then◌else◌}
use trussium_operator.Kube.Condition.{ConditionApi}
use trussium_operator.Api.{TrussiumRuntime, TrussiumRuntimeStatus}
use trussium_operator.Resources.Identity.{runtime_image}
use trussium_operator.Status.Rollout.{
  DeploymentRolloutState, rollout_progressing, rollout_complete, rollout_failed,
  observe_deployment_rollout, deployment_current_image, RuntimeObservation,
}
use trussium_operator.Events.Rounds.{Round, seen, stored}

-- A reconciliation with the runtime that it reads, whose status is the one that is stored.
pub record Turn : Type 0 where
  pub runtime : TrussiumRuntime
  pub round : Round

-- The status after the turns.
abbrev pub after : ConditionApi → List Turn → TrussiumRuntimeStatus → TrussiumRuntimeStatus
after m [] s = s
after m (t ∷ rest) s = after m rest (stored m t.runtime t.round s)

-- The image that is completely rolled out: the Deployment has converged, and its container runs the
-- image that the specification asks for.
abbrev pub completed : DeploymentRolloutState → String → String → Option String
completed rollout_progressing current desired = none
completed rollout_failed current desired = none
completed rollout_complete current desired = if current == desired then some desired else none

-- The image whose complete rollout an observation shows.
abbrev pub shown : TrussiumRuntime → RuntimeObservation → Option String
shown r o =
    completed (observe_deployment_rollout r o.deployment) (deployment_current_image o.deployment)
      (runtime_image r.spec.image)

abbrev pub or_earlier : Option String → String → String
or_earlier none image = image
or_earlier (some image) _ = image

-- The image of the last turn that shows a complete rollout, or else the one of the start.
abbrev pub latest : List Turn → String → String
latest [] image = image
latest (t ∷ rest) image = latest rest (or_earlier (shown t.runtime (seen t.round)) image)
