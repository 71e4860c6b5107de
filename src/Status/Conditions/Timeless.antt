-- ===== src/Status/Conditions/Timeless.antt =====
-- A status without the times of its conditions' transitions: what setRuntimeCondition writes of it,
-- and how preserveRuntimeConditionTransitionTimes restores the times.
use trussium_operator.Prelude.{
  ℕ, ◌≡◌, refl, sym, ap, ◌∙◌, inl, inr, String, false, Option, none, some, List, [], ◌∷◌, ◌==◌, map,
  arith, Bool-cases, is_some,
}
use trussium_operator.Prelude.Int.{ℤ}
use trussium_operator.Kube.Condition.{
  ConditionStatus, Condition, ConditionApi, IsConditionApi, SetsInPlace, stamp,
}
use trussium_operator.Api.{TrussiumRuntimeStatus}
use trussium_operator.Status.Conditions.{
  preserve_time, preserve_times, preserve_runtime_condition_transition_times, set_runtime_condition,
}
use trussium_operator.Status.Conditions.Times.{HasUniqueTypes, FoundIn, FoundIn-self}
use trussium_operator.Status.Conditions.Upsert.{find, upsert, applied, holds, AllOnce}

abbrev pub bare : Condition → Condition
bare c = record c { last_transition_time = 0 }

abbrev pub bare_option : Option Condition → Option Condition
bare_option none = none
bare_option (some c) = some (bare c)

abbrev pub timeless : TrussiumRuntimeStatus → TrussiumRuntimeStatus
timeless s = record s { conditions = map bare s.conditions }

-- A status after writes of conditions.
abbrev pub written : List Condition → TrussiumRuntimeStatus → TrussiumRuntimeStatus
written ws s = record s { conditions = applied ws s.conditions }

bare-stamp : (now : ℕ) (old : Option Condition) (c : Condition) → bare (stamp now old c) ≡ bare c
bare-stamp now none c = refl
bare-stamp now (some d) c = ground arith

bare-preserve : (old : Option Condition) (c : Condition) → bare (preserve_time old c) ≡ bare c
bare-preserve none c = refl
bare-preserve (some d) c = ground arith

restored : (old c : Condition) → bare c ≡ bare old → preserve_time (some old) c ≡ old
restored old c h = ground arith

none_of : {A : Type 0} (o : Option A) → is_some o ≡ false → o ≡ none
none_of none h = refl
none_of (some a) h = cc

module _ {m : ConditionApi} (laws : IsConditionApi m) (inplace : SetsInPlace m) where
  pub bare-set :
      (now : ℕ) (cs : List Condition) (c : Condition)
      → map bare (m.set_status_condition now cs c) ≡ upsert (bare c) (map bare cs)
  unfolding upsert
  bare-set now [] c = rw (inplace.set-nil now c) (ap (λ x. x ∷ []) (bare-stamp now none c))
  bare-set now (d ∷ rest) c =
      rw (inplace.set-cons now d rest c) (elim (Bool-cases (d.type == c.type)) [
        | inl e ↦ rw (e, bare-stamp now (some d) c)
        | inr e ↦ rw (e, bare-set now rest c)
      ])

  pub find-bare :
      (cs : List Condition) (t : String)
      → find (map bare cs) t ≡ bare_option (m.find_status_condition cs t)
  find-bare [] t = rw (laws.find-nil t)
  find-bare (c ∷ cs) t =
      rw (laws.find-cons c cs t)
        (elim (Bool-cases (c.type == t)) [ inl e ↦ rw e | inr e ↦ rw e (find-bare cs t) ])

  holds-bare :
      (cs : List Condition) (t : String)
      → holds t (map bare cs) ≡ is_some (m.find_status_condition cs t)
  holds-bare [] t = rw (laws.find-nil t)
  holds-bare (c ∷ cs) t =
      rw (laws.find-cons c cs t)
        (elim (Bool-cases (c.type == t)) [ inl e ↦ rw e | inr e ↦ rw e (holds-bare cs t) ])

  pub AllOnce-bare : (cs : List Condition) → AllOnce (map bare cs) → HasUniqueTypes m cs
  AllOnce-bare [] once = tt
  AllOnce-bare (c ∷ cs) (new, once) = (
    none_of (m.find_status_condition cs c.type) (sym (holds-bare cs c.type) ∙ new),
    AllOnce-bare cs once,
  )

  pub bare-AllOnce : (cs : List Condition) → HasUniqueTypes m cs → AllOnce (map bare cs)
  bare-AllOnce [] once = tt
  bare-AllOnce (c ∷ cs) (new, once) = (holds-bare cs c.type ∙ ap is_some new, bare-AllOnce cs once)

  pub bare-preserve_times :
      (current desired : List Condition)
      → map bare (preserve_times m current desired) ≡ map bare desired
  unfolding preserve_times
  bare-preserve_times current [] = refl
  bare-preserve_times current (c ∷ cs) =
      rw (bare-preserve (m.find_status_condition current c.type) c, bare-preserve_times current cs)

  restored_part :
      (current part desired : List Condition)
      → FoundIn laws current part
      → map bare desired ≡ map bare part
      → preserve_times m current desired ≡ part
  unfolding preserve_times
  restored_part current [] [] found e = refl
  restored_part current [] (d ∷ ds) found e = cc
  restored_part current (c ∷ cs) [] found e = cc
  restored_part current (c ∷ cs) (d ∷ ds) (here, later) e =
      let same : bare d ≡ bare c = cc in
      let rest : map bare ds ≡ map bare cs = cc in
      let type : d.type ≡ c.type = ap (λ (x : Condition). x.type) same in
      let head : preserve_time (m.find_status_condition current d.type) d ≡ c =
        ap (λ t. preserve_time (m.find_status_condition current t) d) type
        ∙ (ap (λ o. preserve_time o d) here ∙ restored c d same) in
      rw (head, restored_part current cs ds later rest)

  -- A desired status that differs from the current one in times only is put back to it.
  pub restored_status :
      (current desired : TrussiumRuntimeStatus)
      → HasUniqueTypes m current.conditions
      → timeless desired ≡ timeless current
      → preserve_runtime_condition_transition_times m current desired ≡ current
  unfolding preserve_runtime_condition_transition_times
  restored_status current desired once e =
      ap (λ cs. record desired { conditions = cs })
        (restored_part current.conditions current.conditions desired.conditions
          (FoundIn-self laws current.conditions once)
          (ap (λ (s : TrussiumRuntimeStatus). s.conditions) e))
      ∙ ap (λ (s : TrussiumRuntimeStatus). record s { conditions = current.conditions }) e

  -- What setRuntimeCondition writes, times left out.
  pub timeless-set :
      (now : ℕ) (s : TrussiumRuntimeStatus) (g : ℤ) (t : String) (c : ConditionStatus)
      (reason message : String)
      → timeless (set_runtime_condition m now s g t c reason message)
        ≡ written
            (record {
              type = t;
              status = c;
              observed_generation = g;
              last_transition_time = 0;
              reason = reason;
              message = message;
            }
              ∷ [])
            (timeless s)
  unfolding set_runtime_condition
  timeless-set now s g t c reason message =
      ap (λ cs. record s { conditions = cs }) (bare-set now s.conditions _)
