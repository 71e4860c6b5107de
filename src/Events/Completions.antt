-- ===== src/Events/Completions.antt =====
-- The Events that announce a completed upgrade, counted: runtime_events.go emits them in
-- recordUpgradeTransition only.
use trussium_operator.Prelude.{
  ℕ, ◌+◌, ◌≤◌, ◌≡◌, inl, inr, String, Bool, true, false, List, [], ◌∷◌, ◌++◌, ◌==◌, arith,
  Bool-cases, Option-cases, if◌then◌else◌,
}
use trussium_operator.Kube.Condition.{ConditionApi}
use trussium_operator.Api.{TrussiumRuntime, TrussiumRuntimeStatus}
use trussium_operator.Status.Rollout.{
  DeploymentRolloutState, rollout_progressing, rollout_complete, rollout_failed,
}
use trussium_operator.Status.Conditions.{runtime_condition}
use trussium_operator.Status.Upgrade.Steps.{is_rolled_out}
use trussium_operator.Events.{
  Event, record_status_transition_events, record_configuration_transition,
  record_upgrade_transition, record_degraded_transition, record_progressing_transition,
  record_ready_transition, reason_of,
}
use trussium_operator.Events.Upgrades.{upgrade_event_of}

-- The Events that announce a completed upgrade.
abbrev pub completions : List Event → ℕ
completions [] = 0
completions (e ∷ rest) =
    if e.reason == "RuntimeUpgradeCompleted" then completions rest + 1 else completions rest

pub completions-append :
    (xs ys : List Event) → completions (xs ++ ys) ≡ completions xs + completions ys
completions-append [] ys = omega arith
completions-append (e ∷ xs) ys = ground (arith, completions-append xs ys)

module _ (m : ConditionApi) (r : TrussiumRuntime) (previous current : TrussiumRuntimeStatus) where
  configuration_none : completions (record_configuration_transition m r previous current) ≡ 0
  unfolding record_configuration_transition
  configuration_none = ground arith

  degraded_none : completions (record_degraded_transition m r previous current) ≡ 0
  unfolding record_degraded_transition
  degraded_none = elim (Option-cases (runtime_condition m current "Degraded")) [
    | inl e ↦ rw e (ground arith)
    | inr (c, e) ↦ rw e (ground arith)
  ]

  progressing_none : completions (record_progressing_transition m r previous current) ≡ 0
  unfolding record_progressing_transition
  progressing_none = ground arith

  ready_none : completions (record_ready_transition m r previous current) ≡ 0
  unfolding record_ready_transition
  ready_none =
      elim (Bool-cases (reason_of (runtime_condition m current "Ready") == "ScaledToZero")) [
        | inl e ↦ rw e (ground arith)
        | inr e ↦ rw e (ground arith)
      ]

  -- Only the upgrade's Event can announce a completion.
  pub completions-transition :
      (recorder : Bool)
      → completions (record_status_transition_events m r previous current recorder)
        ≤ completions (record_upgrade_transition m r previous current)
  unfolding record_status_transition_events
  completions-transition false = omega arith
  completions-transition true =
      rw
        (
          completions-append, completions-append, completions-append, completions-append,
          configuration_none, degraded_none, progressing_none, ready_none,
        )
        (omega arith)

-- The Event of an upgrade announces a completion only when the desired image is rolled out.
pub upgrade_event_of-completions :
    (r : TrussiumRuntime) (image last : String) (state : DeploymentRolloutState) (desired : String)
    → completions (upgrade_event_of r state image last desired)
      ≤ (if is_rolled_out state image desired then 1 else 0)
upgrade_event_of-completions r image last rollout_failed desired = ground arith
upgrade_event_of-completions r image last rollout_complete desired = ground arith
upgrade_event_of-completions r image last rollout_progressing desired = ground arith
