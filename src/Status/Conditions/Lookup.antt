-- ===== src/Status/Conditions/Lookup.antt =====
-- Reading a condition back after one is set. The two lemmas cover every use: the condition that was
-- set, in the fields that matter to a reader, and all the others.
use trussium_operator.Prelude.{
  ℕ, ◌≡◌, refl, String, ◌<>◌, Option, none, some, ◌==◌, arith, Bool-cases, inl, inr, if◌then◌else◌,
}
use trussium_operator.Prelude.Int.{ℤ, pos, ◌==ℤ◌, ltb_ℤ}
use trussium_operator.Prelude.Text.{itoa}
use trussium_operator.Status.Constants.{
  condition_type_available, reason_scaled_to_zero, reason_runtime_available,
  reason_runtime_unavailable,
}
use trussium_operator.Kube.Condition.{
  ConditionStatus, cond_true, cond_false, Condition, ConditionApi, IsConditionApi, stamp,
}
use trussium_operator.Api.{TrussiumRuntimeStatus}
use trussium_operator.Status.Conditions.{
  runtime_condition, set_runtime_condition, set_availability_condition,
}

-- What a condition says, without the time of its last transition.
pub record Verdict : Type 0 where
  pub status : ConditionStatus
  pub reason : String
  pub message : String
  pub generation : ℤ

abbrev pub verdict : Option Condition → Option Verdict
verdict none = none
verdict (some c) = some (record {
  status = c.status;
  reason = c.reason;
  message = c.message;
  generation = c.observed_generation;
})

verdict-stamp :
    (now : ℕ) (old : Option Condition) (c : Condition)
    → verdict (some (stamp now old c)) ≡ verdict (some c)
verdict-stamp now none c = ground arith
verdict-stamp now (some old) c = ground arith

-- The verdict of type `t` in a status.
unfoldable pub read : ConditionApi → TrussiumRuntimeStatus → String → Option Verdict
read m s t = verdict (runtime_condition m s t)

-- Status and generation of a condition.
abbrev pub said : Option Verdict → Option (ConditionStatus × ℤ)
said none = none
said (some v) = some (v.status, v.generation)

-- A condition without its message.
pub record Ruling : Type 0 where
  pub status : ConditionStatus
  pub reason : String
  pub generation : ℤ

abbrev pub ruling : Option Verdict → Option Ruling
ruling none = none
ruling (some v) = some (record { status = v.status; reason = v.reason; generation = v.generation })

-- The other fields of a status are left alone.
module _ (m : ConditionApi) (now : ℕ) (s : TrussiumRuntimeStatus) (g : ℤ) where
  pub set-available :
      (t : String) (c : ConditionStatus) (reason message : String)
      → (set_runtime_condition m now s g t c reason message).available_replicas
        ≡ s.available_replicas
  unfolding set_runtime_condition
  set-available t c reason message = refl

  pub set-ready :
      (t : String) (c : ConditionStatus) (reason message : String)
      → (set_runtime_condition m now s g t c reason message).ready_replicas ≡ s.ready_replicas
  unfolding set_runtime_condition
  set-ready t c reason message = refl

  set-last :
      (t : String) (c : ConditionStatus) (reason message : String)
      → (set_runtime_condition m now s g t c reason message).last_successful_image
        ≡ s.last_successful_image
  unfolding set_runtime_condition
  set-last t c reason message = refl

  set_availability-last :
      (desired : ℤ)
      → (set_availability_condition m now s g desired).last_successful_image
        ≡ s.last_successful_image
  unfolding set_availability_condition set_runtime_condition
  set_availability-last desired = ground arith

module _ {m : ConditionApi} (laws : IsConditionApi m) (now : ℕ) where
  pub read-set :
      (s : TrussiumRuntimeStatus) (g : ℤ) (t u : String) (c : ConditionStatus)
      (reason message : String)
      → read m (set_runtime_condition m now s g t c reason message) u ≡ (
          if t == u
          then some (record { status = c; reason = reason; message = message; generation = g })
          else read m s u)
  unfolding set_runtime_condition read
  read-set s g t u c reason message = rw laws.find-set (elim (Bool-cases (t == u)) [
    | inl e ↦ rw e (verdict-stamp now (m.find_status_condition s.conditions t) _)
    | inr e ↦ rw e
  ])

  -- The availability that is reported for a desired and an available count.
  abbrev pub availability : ℤ → ℤ → ℤ → Verdict
  availability g desired available =
      if desired ==ℤ pos 0
      then record {
        status = cond_false;
        reason = reason_scaled_to_zero;
        message = "No runtime replicas are requested.";
        generation = g;
      }
      else if ltb_ℤ (pos 0) available
      then record {
        status = cond_true;
        reason = reason_runtime_available;
        message = itoa available <> " runtime replica(s) are available.";
        generation = g;
      }
      else record {
        status = cond_false;
        reason = reason_runtime_unavailable;
        message = "No runtime replicas are currently available.";
        generation = g;
      }

  pub read-set_availability :
      (s : TrussiumRuntimeStatus) (g desired : ℤ) (u : String)
      → read m (set_availability_condition m now s g desired) u ≡ (
          if condition_type_available == u
          then some (availability g desired s.available_replicas)
          else read m s u)
  unfolding set_availability_condition
  read-set_availability s g desired u = elim (Bool-cases (desired ==ℤ pos 0)) [
    | inl e ↦ rw e (read-set s g condition_type_available u _ _ _)
    | inr e ↦ rw e (elim (Bool-cases (ltb_ℤ (pos 0) s.available_replicas)) [
      | inl f ↦ rw f (read-set s g condition_type_available u _ _ _)
      | inr f ↦ rw f (read-set s g condition_type_available u _ _ _)
    ])
  ]
