-- ===== src/Resources/Scale.antt =====
-- Replica counts, ports and grace periods of internal/controller/runtime_resources.go.
use trussium_operator.Prelude.{Bool, false, Option, none, some, if◌then◌else◌}
use trussium_operator.Prelude.Int.{ℤ, pos, ◌+ℤ◌, ◌==ℤ◌, wrap64}
use trussium_operator.Kube.Workload.{Deployment}
use trussium_operator.Api.{TrussiumRuntime, RuntimeSettingsSpec, RuntimeAutoscalingSpec}
use trussium_operator.Resources.Constants.{
  default_runtime_replica_count, default_service_port, default_termination_grace_seconds,
  termination_grace_margin_seconds,
}

abbrev pub or_default : Option ℤ → ℤ → ℤ
or_default none d = d
or_default (some n) d = n

unfoldable pub desired_replicas : TrussiumRuntime → ℤ
desired_replicas r = or_default r.spec.replicas default_runtime_replica_count

abbrev pub is_enabled : Option RuntimeAutoscalingSpec → Bool
is_enabled none = false
is_enabled (some a) = a.enabled

unfoldable pub autoscaling_enabled : TrussiumRuntime → Bool
autoscaling_enabled r = is_enabled r.spec.autoscaling

-- A bound that is absent or 0 takes its default.
abbrev pub bound_or : Option RuntimeAutoscalingSpec → (RuntimeAutoscalingSpec → ℤ) → ℤ → ℤ
bound_or none field d = d
bound_or (some a) field d = if field a ==ℤ pos 0 then d else field a

unfoldable pub desired_autoscaling_min_replicas : TrussiumRuntime → ℤ
desired_autoscaling_min_replicas r = bound_or r.spec.autoscaling (λ a. a.min_replicas) (pos 1)

unfoldable pub desired_autoscaling_max_replicas : TrussiumRuntime → ℤ
desired_autoscaling_max_replicas r = bound_or r.spec.autoscaling (λ a. a.max_replicas) (pos 10)

unfoldable pub desired_target_cpu_utilization : TrussiumRuntime → ℤ
desired_target_cpu_utilization r =
    bound_or r.spec.autoscaling (λ a. a.target_cpu_utilization_percentage) (pos 80)

unfoldable pub desired_service_port : TrussiumRuntime → ℤ
desired_service_port r =
    if r.spec.service.port ==ℤ pos 0 then default_service_port else r.spec.service.port

abbrev pub drain_timeout : Option RuntimeSettingsSpec → Option ℤ
drain_timeout none = none
drain_timeout (some s) = s.shutdown_drain_timeout_seconds

abbrev pub grace : Option ℤ → ℤ
grace none = default_termination_grace_seconds
grace (some t) = wrap64 (t +ℤ termination_grace_margin_seconds)

unfoldable pub termination_grace_period_seconds : TrussiumRuntime → ℤ
termination_grace_period_seconds r = grace (drain_timeout r.spec.runtime)

unfoldable pub initial_deployment_replicas : TrussiumRuntime → ℤ
initial_deployment_replicas r =
    if autoscaling_enabled r then desired_autoscaling_min_replicas r else desired_replicas r

abbrev pub observed_scale : Option Deployment → Option ℤ
observed_scale none = none
observed_scale (some d) = d.spec.replicas

unfoldable pub desired_replica_count : TrussiumRuntime → Option Deployment → ℤ
desired_replica_count r d =
    if autoscaling_enabled r
    then or_default (observed_scale d) (initial_deployment_replicas r)
    else initial_deployment_replicas r
