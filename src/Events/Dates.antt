-- ===== src/Events/Dates.antt =====
-- The transition times of the status that a reconciliation stores.
use trussium_operator.Prelude.{
  ℕ, ◌≡◌, ◌∙◌, refl, sym, subst, inl, inr, String, false, Option, none, some, Bool-cases,
  Option-cases, if◌then◌else◌,
}
use trussium_operator.Kube.Condition.{
  ConditionStatus, status_eqb, Condition, ConditionApi, IsConditionApi,
}
use trussium_operator.Api.{TrussiumRuntime, TrussiumRuntimeStatus}
use trussium_operator.Status.Conditions.{runtime_condition, preserve_time}
use trussium_operator.Status.Conditions.Times.{preserve-runtime_condition}
use trussium_operator.Status.Conditions.Written.{Untimed, Written, Dated, Written-Dated}
use trussium_operator.Status.Build.Written.{build-Any, build_failure-Any}
use trussium_operator.Events.Rounds.{Round, observed, failed, at, built, stored}

-- The instant of a reconciliation.
abbrev pub instant : Round → ℕ
instant (observed now o v) = now
instant (failed now o e) = now

-- When a condition that has a status now came to it: at the stored time, where it had that status,
-- and at this instant otherwise.
abbrev pub since : ℕ → Option Condition → ConditionStatus → ℕ
since now none status = now
since now (some old) status = if status_eqb old.status status then old.last_transition_time else now

module _ {m : ConditionApi} (laws : IsConditionApi m) (r : TrussiumRuntime) where
  built-Written :
      (x : Round) (s : TrussiumRuntimeStatus)
      → Written m (instant x) Untimed s.conditions (built m r x s).conditions
  built-Written (observed now o v) s = build-Any m now (at r s) o v
  built-Written (failed now o e) s = build_failure-Any m now (at r s) o e

  kept-since :
      (now : ℕ) (s : TrussiumRuntimeStatus) (t : String) (old : Option Condition) (b : Condition)
      → runtime_condition m s t ≡ old
      → Dated laws now s.conditions t b
      → (preserve_time old b).last_transition_time ≡ since now old (preserve_time old b).status
  kept-since now s t none b h (inl at_now) = at_now
  kept-since now s t none b h (inr (p, found, same)) = cc
  kept-since now s t (some o) b h d = elim (Bool-cases (status_eqb o.status b.status)) [
    | inl e ↦ rw (e, e)
    | inr e ↦ elim d [
      | inl at_now ↦ rw (e, e) at_now
      | inr (p, found, same) ↦
          let is : p ≡ o = cc in let changed : status_eqb p.status b.status ≡ false = rw is e in cc
    ]
  ]

  -- Every condition of the status that a reconciliation stores, a failed one too, has the time of the
  -- stored condition of its type where that one has the same status, however often the reconciliation
  -- writes the condition in between. Where there is none, or its status is another, it has the instant
  -- of the reconciliation.
  -- Conditions are set and found as the library documents it.
  pub stored-since :
      (x : Round) (s : TrussiumRuntimeStatus) (t : String) {c : Condition}
      → runtime_condition m (stored m r x s) t ≡ some c
      → c.last_transition_time ≡ since (instant x) (runtime_condition m s t) c.status
  stored-since x s t {c} found =
      let is = sym ((preserve-runtime_condition laws s (built m r x s) t).1) ∙ found in
      elim (Option-cases (runtime_condition m (built m r x s) t)) [
        | inl e ↦ let nothing = rw e at is in cc
        | inr (b, e) ↦
            let kept : preserve_time (runtime_condition m s t) b ≡ c = let h = rw e at is in cc in
            subst
              (λ (d : Condition).
                d.last_transition_time ≡ since (instant x) (runtime_condition m s t) d.status)
              kept
              (kept-since (instant x) s t (runtime_condition m s t) b refl
                (Written-Dated laws (instant x) (built-Written x s) t b e))
      ]
