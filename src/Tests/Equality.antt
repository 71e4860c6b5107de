-- ===== src/Tests/Equality.antt =====
-- A concrete semantic equality of statuses.
use trussium_operator.Prelude.{
  ◌≡◌, ◌↔◌, Bool, true, false, ◌&&◌, List, [], ◌∷◌, arith, ◌==◌, eq_iff, nat_eqb,
}
use trussium_operator.Prelude.Int.{◌==ℤ◌, ==ℤ_iff}
use trussium_operator.Kube.Condition.{ConditionStatus, status_eqb, Condition}
use trussium_operator.Api.{TrussiumRuntimeStatus}

status_eqb_iff : (a b : ConditionStatus) → (status_eqb a b ≡ true) ↔ (a ≡ b)
status_eqb_iff a b = ground arith

abbrev condition_eqb : Condition → Condition → Bool
condition_eqb c d =
    (c.type == d.type)
    && status_eqb c.status d.status
    && (c.observed_generation ==ℤ d.observed_generation)
    && nat_eqb c.last_transition_time d.last_transition_time
    && (c.reason == d.reason)
    && (c.message == d.message)

condition_eqb_iff : (c d : Condition) → (condition_eqb c d ≡ true) ↔ (c ≡ d)
condition_eqb_iff c d = ground (
  arith,
  eq_iff c.type d.type,
  status_eqb_iff c.status d.status,
  ==ℤ_iff c.observed_generation d.observed_generation,
  eq_iff c.reason d.reason,
  eq_iff c.message d.message,
)

abbrev conditions_eqb : List Condition → List Condition → Bool
conditions_eqb [] [] = true
conditions_eqb (c ∷ cs) (d ∷ ds) = condition_eqb c d && conditions_eqb cs ds
conditions_eqb _ _ = false

conditions_eqb_iff : (cs ds : List Condition) → (conditions_eqb cs ds ≡ true) ↔ (cs ≡ ds)
conditions_eqb_iff [] [] = ground arith
conditions_eqb_iff [] (d ∷ ds) = ground arith
conditions_eqb_iff (c ∷ cs) [] = ground arith
conditions_eqb_iff (c ∷ cs) (d ∷ ds) =
    ground (arith, condition_eqb_iff c d, conditions_eqb_iff cs ds)

abbrev pub statuses_eqb : TrussiumRuntimeStatus → TrussiumRuntimeStatus → Bool
statuses_eqb s t =
    (s.observed_generation ==ℤ t.observed_generation)
    && (s.ready_replicas ==ℤ t.ready_replicas)
    && (s.available_replicas ==ℤ t.available_replicas)
    && (s.desired_image == t.desired_image)
    && (s.current_image == t.current_image)
    && (s.last_successful_image == t.last_successful_image)
    && (s.endpoint == t.endpoint)
    && conditions_eqb s.conditions t.conditions

pub statuses_eqb_iff : (s t : TrussiumRuntimeStatus) → (statuses_eqb s t ≡ true) ↔ (s ≡ t)
statuses_eqb_iff s t = ground (
  arith,
  ==ℤ_iff s.observed_generation t.observed_generation,
  ==ℤ_iff s.ready_replicas t.ready_replicas,
  ==ℤ_iff s.available_replicas t.available_replicas,
  eq_iff s.desired_image t.desired_image,
  eq_iff s.current_image t.current_image,
  eq_iff s.last_successful_image t.last_successful_image,
  eq_iff s.endpoint t.endpoint,
  conditions_eqb_iff s.conditions t.conditions,
)
