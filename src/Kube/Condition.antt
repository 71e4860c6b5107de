-- ===== src/Kube/Condition.antt =====
-- metav1.Condition, and what the operator calls of k8s.io/apimachinery's `meta` package on lists of
-- conditions, with the documented behaviour as laws. Instants are numbers, 0 for the zero time.
use trussium_operator.Prelude.{
  ℕ, ◌≡◌, String, Bool, true, false, Option, none, some, List, [], ◌∷◌, ◌==◌, nat_eqb,
  if◌then◌else◌,
}
use trussium_operator.Prelude.Int.{ℤ}

pub data ConditionStatus : Type 0 where
  cond_true cond_false cond_unknown : ConditionStatus

abbrev pub status_eqb : ConditionStatus → ConditionStatus → Bool
status_eqb cond_true cond_true = true
status_eqb cond_false cond_false = true
status_eqb cond_unknown cond_unknown = true
status_eqb _ _ = false

pub record Condition : Type 0 where
  pub type : String
  pub status : ConditionStatus
  pub observed_generation : ℤ
  pub last_transition_time : ℕ
  pub reason : String
  pub message : String

-- meta.SetStatusCondition and meta.FindStatusCondition; the number is the instant of the call.
pub record ConditionApi : Type 0 where
  pub set_status_condition : ℕ → List Condition → Condition → List Condition
  pub find_status_condition : List Condition → String → Option Condition

-- What SetStatusCondition documents of the transition time: it moves when the condition is new or
-- its status changes, to the time of the new condition or to now where that is zero.
abbrev pub stamp : ℕ → Option Condition → Condition → Condition
stamp now none c = record c {
  last_transition_time = if nat_eqb c.last_transition_time 0 then now else c.last_transition_time;
}
stamp now (some old) c =
    if status_eqb old.status c.status
    then record c { last_transition_time = old.last_transition_time }
    else record c {
      last_transition_time =
          if nat_eqb c.last_transition_time 0 then now else c.last_transition_time;
    }

pub record IsConditionApi (m : ConditionApi) : Type 0 where
  pub find-nil : (t : String) → m.find_status_condition [] t ≡ none
  pub find-cons :
      (c : Condition) (cs : List Condition) (t : String)
      → m.find_status_condition (c ∷ cs) t
        ≡ (if c.type == t then some c else m.find_status_condition cs t)
  pub find-set :
      (now : ℕ) (cs : List Condition) (c : Condition) (t : String)
      → m.find_status_condition (m.set_status_condition now cs c) t ≡ (
          if c.type == t
          then some (stamp now (m.find_status_condition cs c.type) c)
          else m.find_status_condition cs t)

-- SetStatusCondition writes the first condition of the type where there is one, and appends the new
-- condition where there is none.
pub record SetsInPlace (m : ConditionApi) : Type 0 where
  pub set-nil : (now : ℕ) (c : Condition) → m.set_status_condition now [] c ≡ stamp now none c ∷ []
  pub set-cons :
      (now : ℕ) (d : Condition) (rest : List Condition) (c : Condition)
      → m.set_status_condition now (d ∷ rest) c ≡ (
          if d.type == c.type
          then stamp now (some d) c ∷ rest
          else d ∷ m.set_status_condition now rest c)
