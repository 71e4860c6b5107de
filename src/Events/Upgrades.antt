-- ===== src/Events/Upgrades.antt =====
-- The Events of an image upgrade, as the status of the same reconciliation causes them.
use trussium_operator.Prelude.{
  ℕ, ◌≡◌, ◌≢◌, ◌∙◌, sym, Option-cases, ◌⊎◌, inl, inr, String, ◌<>◌, true, false, some, List, [],
  ◌==◌, arith, Bool-cases, eq_iff, eq_false, if◌then◌else◌,
}
use trussium_operator.Prelude.Int.{ℤ}
use trussium_operator.Kube.Condition.{Condition, ConditionApi, IsConditionApi}
use trussium_operator.Api.{TrussiumRuntime, TrussiumRuntimeStatus}
use trussium_operator.Resources.Identity.{runtime_image}
use trussium_operator.Status.References.{ReferenceValidationResult}
use trussium_operator.Status.Rollout.{
  DeploymentRolloutState, rollout_progressing, rollout_complete, rollout_failed, RuntimeObservation,
  observe_deployment_rollout, deployment_current_image,
}
use trussium_operator.Status.Conditions.{runtime_condition, condition_changed}
use trussium_operator.Status.Conditions.Lookup.{Ruling, ruling, verdict, read}
use trussium_operator.Status.Base.{build_base_runtime_status}
use trussium_operator.Status.Base.Kept.{build_base-last}
use trussium_operator.Status.Upgrade.Steps.{is_rolled_out, upgrade_ruling}
use trussium_operator.Status.Upgrade.Tracking.{ruling-apply_upgrade, apply_upgrade-desired}
use trussium_operator.Status.Build.{build_runtime_status}
use trussium_operator.Events.{
  Event, eventf, normal, warning, valid_upgrade_event_images, record_upgrade_transition,
}

pub build-desired :
    (m : ConditionApi) (now : ℕ) (r : TrussiumRuntime) (o : RuntimeObservation)
    (v : ReferenceValidationResult)
    → (build_runtime_status m now r o v).desired_image ≡ runtime_image r.spec.image
unfolding build_runtime_status
build-desired m now r o v = apply_upgrade-desired m now r o.deployment _

-- The one Event that fits how the rollout of the desired image stands.
abbrev pub upgrade_event_of :
    TrussiumRuntime → DeploymentRolloutState → String → String → String → List Event
upgrade_event_of r rollout_failed current last desired =
    eventf r warning "RuntimeUpgradeFailed" "UpgradeRuntime"
      ("Runtime image upgrade failed from " <> last <> " to " <> desired <> ".")
upgrade_event_of r state current last desired =
    if is_rolled_out state current desired
    then eventf r normal "RuntimeUpgradeCompleted" "UpgradeRuntime"
        ("Runtime image upgrade completed from " <> last <> " to " <> desired <> ".")
    else eventf r normal "RuntimeUpgradeStarted" "UpgradeRuntime"
        ("Runtime image upgrade started from " <> last <> " to " <> desired <> ".")

ruling_parts :
    (c : Condition) (u : Ruling)
    → ruling (verdict (some c)) ≡ some u
    → (c.status ≡ u.status) × (c.reason ≡ u.reason)
ruling_parts c u e = ground arith

module _ (m : ConditionApi) (r : TrussiumRuntime) (previous current : TrussiumRuntimeStatus) where
  -- The events for a current condition with a known ruling.
  events_of_ruling :
      (state : DeploymentRolloutState) (image desired : String) (g : ℤ) (c : Condition)
      → (c.status ≡ (upgrade_ruling state image desired g).status)
        × (c.reason ≡ (upgrade_ruling state image desired g).reason)
      → runtime_condition m current "Upgrading" ≡ some c
      → current.desired_image ≡ desired
      → valid_upgrade_event_images previous.last_successful_image desired ≡ true
      → condition_changed m previous current "Upgrading" ≡ true
      → record_upgrade_transition m r previous current
        ≡ upgrade_event_of r state image previous.last_successful_image desired
  unfolding record_upgrade_transition
  events_of_ruling rollout_failed image desired g c (es, er) ec ed valid changed =
      rw (changed, ec, es, er, ed, valid)
  events_of_ruling rollout_progressing image desired g c (es, er) ec ed valid changed =
      rw (changed, ec, es, er, ed, valid)
  events_of_ruling rollout_complete image desired g c (es, er) ec ed valid changed =
      elim (Bool-cases (image == desired)) [
        | inl e ↦ rw (changed, ec, es, er, e, ed, valid)
        | inr e ↦ rw (changed, ec, es, er, e, ed, valid)
      ]

  -- No Event where one image is missing or both are the same.
  no_upgrade_event :
      (desired : String)
      → current.desired_image ≡ desired
      → valid_upgrade_event_images previous.last_successful_image desired ≡ false
      → record_upgrade_transition m r previous current ≡ []
  unfolding record_upgrade_transition
  no_upgrade_event desired ed invalid =
      elim (Option-cases (runtime_condition m current "Upgrading")) [
        | inl e ↦ rw e (ground arith)
        | inr (c, e) ↦ rw e (ground arith)
      ]

  no_upgrade_event_unchanged :
      condition_changed m previous current "Upgrading" ≡ false
      → record_upgrade_transition m r previous current ≡ []
  unfolding record_upgrade_transition
  no_upgrade_event_unchanged same = rw same

module _ {m : ConditionApi} (laws : IsConditionApi m) (now : ℕ) where
  -- The Upgrading condition of a built status, during an upgrade.
  upgrading-build :
      (r : TrussiumRuntime) (o : RuntimeObservation) (v : ReferenceValidationResult)
      → r.status.last_successful_image ≢ ""
      → runtime_image r.spec.image ≢ r.status.last_successful_image
      → ruling (verdict (runtime_condition m (build_runtime_status m now r o v) "Upgrading"))
        ≡ some (
            upgrade_ruling
              (observe_deployment_rollout r o.deployment)
              (deployment_current_image o.deployment)
              (runtime_image r.spec.image)
              r.meta.generation)
  unfolding build_runtime_status read
  upgrading-build r o v upgraded moved =
      let b = build_base_runtime_status m now r o v in
      let kept : b.last_successful_image ≡ r.status.last_successful_image =
        build_base-last m now r o v in
      ruling-apply_upgrade laws now r o.deployment b (λ e. moved (e ∙ kept))
      ∙ rw (kept, eq_false _ _ upgraded)

  -- A reconciliation that moves from one successful image to another emits exactly one upgrade Event
  -- when its Upgrading condition has changed, and none when it has not: failed, completed or started,
  -- as the rollout of the new image is failed, complete, or neither.
  -- Conditions are set and found as the library documents it.
  pub upgrade_event-build :
      (r : TrussiumRuntime) (o : RuntimeObservation) (v : ReferenceValidationResult)
      → let desired = runtime_image r.spec.image in
        let last = r.status.last_successful_image in
        let status = build_runtime_status m now r o v in
        last ≢ ""
        → desired ≢ ""
        → desired ≢ last
        → record_upgrade_transition m r r.status status ≡ (
            if condition_changed m r.status status "Upgrading"
            then upgrade_event_of r
                (observe_deployment_rollout r o.deployment)
                (deployment_current_image o.deployment)
                last
                desired
            else [])
  unfolding valid_upgrade_event_images
  upgrade_event-build r o v upgraded named moved =
      let status = build_runtime_status m now r o v in
      let says = upgrading-build r o v upgraded moved in
      let valid : valid_upgrade_event_images r.status.last_successful_image
            (runtime_image r.spec.image)
          ≡ true =
        rw (eq_false _ _ upgraded, eq_false _ _ named, eq_false _ _ (λ e. moved (sym e))) in
      elim (Bool-cases (condition_changed m r.status status "Upgrading")) [
        | inr same ↦ rw same (no_upgrade_event_unchanged m r r.status status same)
        | inl changed ↦ rw changed (elim (Option-cases (runtime_condition m status "Upgrading")) [
          | inl e ↦ absurd (cc)
          | inr (c, e) ↦
              events_of_ruling m r r.status status (observe_deployment_rollout r o.deployment)
                (deployment_current_image o.deployment) (runtime_image r.spec.image)
                r.meta.generation c (ruling_parts c _ (rw e at says)) e (build-desired m now r o v)
                valid changed
        ])
      ]

  -- No upgrade Event is emitted for the first rollout, nor while the desired image is the last
  -- successful one.
  -- Conditions are set and found as the library documents it.
  pub no_upgrade_event-build :
      (r : TrussiumRuntime) (o : RuntimeObservation) (v : ReferenceValidationResult)
      → (r.status.last_successful_image ≡ "")
        ⊎ (runtime_image r.spec.image ≡ r.status.last_successful_image)
      → record_upgrade_transition m r r.status (build_runtime_status m now r o v) ≡ []
  unfolding valid_upgrade_event_images
  no_upgrade_event-build r o v h =
      no_upgrade_event m r r.status (build_runtime_status m now r o v) (runtime_image r.spec.image)
        (build-desired m now r o v)
        (ground (
          arith,
          eq_iff r.status.last_successful_image "",
          eq_iff r.status.last_successful_image (runtime_image r.spec.image),
        ))
