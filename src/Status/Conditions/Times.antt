-- ===== src/Status/Conditions/Times.antt =====
-- preserveRuntimeConditionTransitionTimes: what it changes.
use trussium_operator.Prelude.{
  ◌≡◌, refl, String, Option, none, some, List, [], ◌∷◌, ◌==◌, arith, eq_iff, eq_refl, Bool-cases,
  inl, inr,
}
use trussium_operator.Kube.Condition.{Condition, ConditionApi, IsConditionApi}
use trussium_operator.Api.{TrussiumRuntimeStatus}
use trussium_operator.Status.Conditions.{
  preserve_time, preserve_times, preserve_runtime_condition_transition_times, runtime_condition,
}
use trussium_operator.Status.Conditions.Lookup.{verdict, read}

abbrev pub preserved : Option Condition → Option Condition → Option Condition
preserved old none = none
preserved old (some c) = some (preserve_time old c)

-- `preserve_time` keeps the type.
type-preserve : (old : Option Condition) (c : Condition) → (preserve_time old c).type ≡ c.type
type-preserve none c = refl
type-preserve (some o) c = ground arith

verdict-preserved : (old c : Option Condition) → verdict (preserved old c) ≡ verdict c
verdict-preserved old none = refl
verdict-preserved none (some c) = refl
verdict-preserved (some o) (some c) = ground arith

module _ (m : ConditionApi) where
  -- No type stands twice among the conditions, as the schema's list-map key demands.
  abbrev pub HasUniqueTypes : List Condition → Type 0
  HasUniqueTypes [] = Unit
  HasUniqueTypes (c ∷ rest) = (m.find_status_condition rest c.type ≡ none) × HasUniqueTypes rest

module _ {m : ConditionApi} (laws : IsConditionApi m) where
  find-preserve_times :
      (current desired : List Condition) (t : String)
      → m.find_status_condition (preserve_times m current desired) t
        ≡ preserved (m.find_status_condition current t) (m.find_status_condition desired t)
  unfolding preserve_times
  find-preserve_times current [] t = rw (laws.find-nil t)
  find-preserve_times current (c ∷ rest) t =
      rw (laws.find-cons, laws.find-cons, type-preserve)
        (elim (Bool-cases (c.type == t)) [
          | inl e ↦ rw (e, (eq_iff c.type t).0 e)
          | inr e ↦ rw (e) (find-preserve_times current rest t)
        ])

  -- Looking each condition of `part` up in `desired` gives the condition itself.
  abbrev pub FoundIn : List Condition → List Condition → Type 0
  FoundIn desired [] = Unit
  FoundIn desired (c ∷ rest) =
      (m.find_status_condition desired c.type ≡ some c) × FoundIn desired rest

  FoundIn-cons :
      (c : Condition) (desired part : List Condition)
      → m.find_status_condition desired c.type ≡ none
      → FoundIn desired part
      → FoundIn (c ∷ desired) part
  FoundIn-cons c desired [] absent_there f = tt
  FoundIn-cons c desired (d ∷ part) absent_there (here, later) = (
    rw laws.find-cons (ground (arith, eq_iff c.type d.type)),
    FoundIn-cons c desired part absent_there later,
  )

  pub FoundIn-self : (desired : List Condition) → HasUniqueTypes m desired → FoundIn desired desired
  FoundIn-self [] u = tt
  FoundIn-self (c ∷ rest) (fresh, u) =
      (rw (laws.find-cons, eq_refl c.type), FoundIn-cons c rest rest fresh (FoundIn-self rest u))

  -- The conditions say what the desired ones say, and a condition found in both statuses with one
  -- status keeps the stored time of its last transition.
  -- Conditions are set and found as the library documents it.
  pub preserve-runtime_condition :
      (current desired : TrussiumRuntimeStatus) (t : String)
      → let kept = preserve_runtime_condition_transition_times m current desired in
        (read m kept t ≡ read m desired t)
        × (runtime_condition m kept t
            ≡ preserved (runtime_condition m current t) (runtime_condition m desired t))
  unfolding preserve_runtime_condition_transition_times read
  preserve-runtime_condition current desired t = (
    rw (find-preserve_times current.conditions desired.conditions t)
        (verdict-preserved (runtime_condition m current t) (runtime_condition m desired t)),
    find-preserve_times current.conditions desired.conditions t,
  )
