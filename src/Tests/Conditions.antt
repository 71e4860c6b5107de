-- ===== src/Tests/Conditions.antt =====
-- A concrete list of conditions, which meets the documented behaviour.
use trussium_operator.Prelude.{
  ℕ, ◌≡◌, refl, String, Option, none, some, List, [], ◌∷◌, arith, ◌==◌, eq_iff, Bool-cases, inl,
  inr, if◌then◌else◌,
}
use trussium_operator.Kube.Condition.{Condition, ConditionApi, IsConditionApi, SetsInPlace, stamp}

abbrev pub find_condition : List Condition → String → Option Condition
find_condition [] t = none
find_condition (c ∷ cs) t = if c.type == t then some c else find_condition cs t

abbrev pub set_condition : ℕ → List Condition → Condition → List Condition
set_condition now [] c = stamp now none c ∷ []
set_condition now (d ∷ rest) c =
    if d.type == c.type then stamp now (some d) c ∷ rest else d ∷ set_condition now rest c

abbrev pub condition_table : ConditionApi
condition_table = record {
  set_status_condition = set_condition;
  find_status_condition = find_condition;
}

type-stamp : (now : ℕ) (old : Option Condition) (c : Condition) → (stamp now old c).type ≡ c.type
type-stamp now none c = ground arith
type-stamp now (some d) c = ground arith

find-set_condition :
    (now : ℕ) (cs : List Condition) (c : Condition) (t : String)
    → find_condition (set_condition now cs c) t
      ≡ (if c.type == t then some (stamp now (find_condition cs c.type) c) else find_condition cs t)
find-set_condition now [] c t = rw (type-stamp now none c) refl
find-set_condition now (d ∷ rest) c t = elim (Bool-cases (d.type == c.type)) [
  | inl e ↦ rw (e, type-stamp now (some d) c) (ground (arith, eq_iff d.type c.type, e))
  | inr e ↦ rw e (
      ground (
        arith,
        eq_iff d.type c.type,
        eq_iff d.type t,
        eq_iff c.type t,
        e,
        find-set_condition now rest c t,
      ))
]

pub condition_table-IsConditionApi : IsConditionApi condition_table
condition_table-IsConditionApi = record {
  find-nil = λ t. refl;
  find-cons = λ c cs t. refl;
  find-set = find-set_condition;
}

pub condition_table-SetsInPlace : SetsInPlace condition_table
condition_table-SetsInPlace = record { set-nil = λ now c. refl; set-cons = λ now d rest c. refl }
