-- ===== src/Events/Once.antt =====
-- Over any sequence of reconciliations of one specification, an upgrade is announced as completed at
-- most once.
use trussium_operator.Prelude.{
  ◌≤◌, ◌≡◌, ◌≢◌, refl, subst, inl, inr, Bool, true, List, [], ◌∷◌, ◌==◌, arith, Bool-cases, eq_iff,
  if◌then◌else◌,
}
use trussium_operator.Kube.Condition.{ConditionApi, IsConditionApi}
use trussium_operator.Api.{TrussiumRuntime, TrussiumRuntimeStatus}
use trussium_operator.Resources.Identity.{runtime_image}
use trussium_operator.Status.Rollout.{observe_deployment_rollout, deployment_current_image}
use trussium_operator.Status.Conditions.{condition_changed}
use trussium_operator.Status.Build.{build_runtime_status}
use trussium_operator.Status.Build.History.{rolled_out}
use trussium_operator.Events.{record_upgrade_transition}
use trussium_operator.Events.Completions.{
  completions, completions-append, completions-transition, upgrade_event_of-completions,
}
use trussium_operator.Events.Upgrades.{upgrade_event-build, no_upgrade_event-build}
use trussium_operator.Events.Rounds.{
  Round, at, stored, events, all_events, seen, built-last, upgrade-stored,
}

module _ {m : ConditionApi} (laws : IsConditionApi m) (r : TrussiumRuntime) where
  -- A step announces no completion where the desired image was rolled out last before.
  done-quiet :
      (x : Round) (s : TrussiumRuntimeStatus)
      → runtime_image r.spec.image ≡ s.last_successful_image
      → completions (record_upgrade_transition m (at r s) s (stored m r x s)) ≡ 0
  done-quiet x s same =
      let (now, v, e) = upgrade-stored laws r x s in
      rw (e, no_upgrade_event-build laws now (at r s) (seen x) v (inr same))

  -- A step announces at most one completion, and only when the desired image is rolled out.
  step_completions :
      (x : Round) (s : TrussiumRuntimeStatus)
      → runtime_image r.spec.image ≢ ""
      → completions (record_upgrade_transition m (at r s) s (stored m r x s))
        ≤ (if rolled_out (at r s) (seen x) then 1 else 0)
  step_completions x s named =
      let (now, v, e) = upgrade-stored laws r x s in
      elim (Bool-cases (s.last_successful_image == "")) [
        | inl first ↦
            rw
              (
                e,
                no_upgrade_event-build laws now (at r s) (seen x) v
                    (inl ((eq_iff s.last_successful_image "").0 first)),
              )
              (omega arith)
        | inr later ↦ elim (Bool-cases (runtime_image r.spec.image == s.last_successful_image)) [
          | inl same ↦
              rw
                (done-quiet x s
                  ((eq_iff (runtime_image r.spec.image) s.last_successful_image).0 same))
                (omega arith)
          | inr moves ↦
              let event =
                upgrade_event-build laws now (at r s) (seen x) v
                  (λ h. ground (arith, h, eq_iff s.last_successful_image "")) named
                  (λ h.
                    ground
                      (arith, h, eq_iff (runtime_image r.spec.image) s.last_successful_image)) in
              rw (e, event)
                (elim (Bool-cases (
                  condition_changed m s (build_runtime_status m now (at r s) (seen x) v)
                    "Upgrading")) [
                      | inl c ↦ rw c (
                          upgrade_event_of-completions r
                            (deployment_current_image (seen x).deployment) s.last_successful_image
                            (observe_deployment_rollout (at r s) (seen x).deployment)
                            (runtime_image r.spec.image))
                      | inr c ↦ rw c (omega arith)
                    ])
        ]
      ]

  step_bound :
      (x : Round) (s : TrussiumRuntimeStatus)
      → runtime_image r.spec.image ≢ ""
      → {b : Bool} → rolled_out (at r s) (seen x) ≡ b
      → completions (record_upgrade_transition m (at r s) s (stored m r x s)) ≤ (if b then 1 else 0)
  step_bound x s named e =
      subst
        (λ b.
          completions (record_upgrade_transition m (at r s) s (stored m r x s))
          ≤ (if b then 1 else 0))
        e (step_completions x s named)

  -- An image that was rolled out stays the last successful one.
  pub done_stays :
      (x : Round) (s : TrussiumRuntimeStatus)
      → runtime_image r.spec.image ≡ s.last_successful_image
      → runtime_image r.spec.image ≡ (stored m r x s).last_successful_image
  done_stays x s done = elim (Bool-cases (rolled_out (at r s) (seen x))) [
    | inl e ↦ rw (built-last laws r x s, e)
    | inr e ↦ rw (built-last laws r x s, e) done
  ]

  rolled-done :
      (x : Round) (s : TrussiumRuntimeStatus)
      → rolled_out (at r s) (seen x) ≡ true
      → runtime_image r.spec.image ≡ (stored m r x s).last_successful_image
  rolled-done x s e = rw (built-last laws r x s, e)

  done-no_completions :
      (recorder : Bool) (rounds : List Round) (s : TrussiumRuntimeStatus)
      → runtime_image r.spec.image ≡ s.last_successful_image
      → completions (all_events m r recorder rounds s) ≡ 0
  done-no_completions recorder [] s done = refl
  done-no_completions recorder (x ∷ rest) s done = omega (
    arith,
    completions-append (events m r recorder x s) (all_events m r recorder rest (stored m r x s)),
    completions-transition m (at r s) s (stored m r x s) recorder,
    done-quiet x s done,
    done-no_completions recorder rest (stored m r x s) (done_stays x s done),
  )

  -- Over any sequence of reconciliations of one specification, failed ones among them, whatever each
  -- observes, an upgrade is announced as completed at most once, where each stores its status. The
  -- image has a name. Conditions are set and found as the library documents it.
  pub completed_once :
      (recorder : Bool) (rounds : List Round) (s : TrussiumRuntimeStatus)
      → runtime_image r.spec.image ≢ ""
      → completions (all_events m r recorder rounds s) ≤ 1
  completed_once recorder [] s named = omega arith
  completed_once recorder (x ∷ rest) s named =
      let rest_of =
        completions-append (events m r recorder x s)
          (all_events m r recorder rest (stored m r x s)) in
      let of_upgrade = completions-transition m (at r s) s (stored m r x s) recorder in
      elim (Bool-cases (rolled_out (at r s) (seen x))) [
        | inl e ↦ omega (
          arith,
          rest_of,
          of_upgrade,
          step_bound x s named e,
          done-no_completions recorder rest (stored m r x s) (rolled-done x s e),
        )
        | inr e ↦ omega (
          arith,
          rest_of,
          of_upgrade,
          step_bound x s named e,
          completed_once recorder rest (stored m r x s) named,
        )
      ]
