-- ===== src/Api/Schema.antt =====
-- The kubebuilder markers of api/v1alpha1/trussiumruntime_types.go that the theorems rely on, as
-- predicates of an admitted object.
use trussium_operator.Prelude.Int.{pos, ◌≤ℤ◌}
use trussium_operator.Api.{RuntimeAutoscalingSpec}

-- Minimum and Maximum of both bounds, and XValidation: self.maxReplicas >= self.minReplicas
pub record IsAdmittedAutoscaling (a : RuntimeAutoscalingSpec) : Type 0 where
  pub min_at_least_one : pos 1 ≤ℤ a.min_replicas
  pub max_at_most_1000 : a.max_replicas ≤ℤ pos 1000
  pub ordered : a.min_replicas ≤ℤ a.max_replicas
