-- ===== src/Status/Base/Refinement.antt =====
-- buildBaseRuntimeStatus makes the writes of its list, in their order.
use trussium_operator.Prelude.{
  ℕ, ◌≡◌, refl, ap, ◌∙◌, inl, inr, String, Bool, true, false, not, ◌&&◌, Option, none, some, [],
  ◌∷◌, map, Bool-cases, Option-cases, if◌then◌else◌,
}
use trussium_operator.Prelude.Int.{ℤ, pos, ◌==ℤ◌, ltb_ℤ}
use trussium_operator.Kube.Condition.{
  cond_true, Condition, ConditionApi, IsConditionApi, SetsInPlace,
}
use trussium_operator.Kube.Workload.{Deployment}
use trussium_operator.Api.{TrussiumRuntime, TrussiumRuntimeStatus}
use trussium_operator.Resources.Scale.{desired_replicas, desired_replica_count}
use trussium_operator.Status.Constants
use trussium_operator.Status.References.{ReferenceValidationResult}
use trussium_operator.Status.Rollout.{RuntimeObservation, deployment_failure}
use trussium_operator.Status.Conditions.{set_runtime_condition, set_availability_condition}
use trussium_operator.Status.Conditions.Upsert.{applied, holds}
use trussium_operator.Status.Conditions.Timeless.{bare, timeless, written, bare-set}
use trussium_operator.Status.Base.{
  ready_count, available_count, observed_status, deployment_observed, invalid_status,
  missing_status, at_zero_status, towards_zero_status, failed_status, ready_status,
  progressing_status, deployed_status, observed_outcome, build_base_runtime_status,
}
use trussium_operator.Status.Base.Writes.{
  says, availability_write, invalid_writes, missing_writes, at_zero_writes, towards_zero_writes,
  failed_writes, ready_writes, progressing_writes, deployed_writes, observed_writes, base_writes,
}

module _ {m : ConditionApi} (laws : IsConditionApi m) (inplace : SetsInPlace m) (now : ℕ) (g : ℤ)
    (s : TrussiumRuntimeStatus) where
  set_availability-eq-write :
      (t : TrussiumRuntimeStatus) (desired : ℤ)
      → set_availability_condition m now t g desired ≡ record t {
        conditions =
            m.set_status_condition now t.conditions
              (availability_write g desired t.available_replicas);
      }
  unfolding set_availability_condition set_runtime_condition
  set_availability-eq-write t desired = elim (Bool-cases (desired ==ℤ pos 0)) [
    | inl e ↦ rw e
    | inr e ↦
        rw e
          (elim (Bool-cases (ltb_ℤ (pos 0) t.available_replicas)) [ inl f ↦ rw f | inr f ↦ rw f ])
  ]

  -- Four writes of conditions, one after the other.
  four :
      (a b c d : Condition)
      → map bare (
          m.set_status_condition now
            (m.set_status_condition now
              (m.set_status_condition now (m.set_status_condition now s.conditions a) b)
              c)
            d)
        ≡ applied (bare a ∷ bare b ∷ bare c ∷ bare d ∷ []) (map bare s.conditions)
  four a b c d = rw (
    bare-set laws inplace now,
    bare-set laws inplace now,
    bare-set laws inplace now,
    bare-set laws inplace now,
  )

  timeless-invalid :
      (v : ReferenceValidationResult) (desired : ℤ)
      → timeless (invalid_status m now g v desired s)
        ≡ written (invalid_writes g v desired s.available_replicas) (timeless s)
  unfolding invalid_status set_runtime_condition
  timeless-invalid v desired = rw set_availability-eq-write (
      rw (
        bare-set laws inplace now,
        bare-set laws inplace now,
        bare-set laws inplace now,
        bare-set laws inplace now,
        bare-set laws inplace now,
      ))

  timeless-missing :
      (desired : ℤ)
      → timeless (missing_status m now g desired s)
        ≡ written (missing_writes g desired s.available_replicas) (timeless s)
  unfolding missing_status set_runtime_condition
  timeless-missing desired =
      rw set_availability-eq-write (ap (λ cs. record s { conditions = cs }) (four _ _ _ _))

  timeless-at_zero : timeless (at_zero_status m now g s) ≡ written (at_zero_writes g) (timeless s)
  unfolding at_zero_status set_runtime_condition
  timeless-at_zero = ap (λ cs. record s { conditions = cs }) (four _ _ _ _)

  timeless-ready :
      timeless (ready_status m now g s) ≡ written (ready_writes g s.available_replicas) (timeless s)
  unfolding ready_status set_runtime_condition
  timeless-ready = ap (λ cs. record s { conditions = cs }) (four _ _ _ _)

  timeless-towards_zero :
      timeless (towards_zero_status m now g s) ≡ written (towards_zero_writes g) (timeless s)
  unfolding towards_zero_status set_runtime_condition
  timeless-towards_zero = ap (λ cs. record s { conditions = cs }) (four _ _ _ _)

  timeless-failed :
      (reason message : String) (desired : ℤ)
      → timeless (failed_status m now g reason message desired s)
        ≡ written (failed_writes g reason message desired s.available_replicas) (timeless s)
  unfolding failed_status set_runtime_condition
  timeless-failed reason message desired =
      rw set_availability-eq-write (ap (λ cs. record s { conditions = cs }) (four _ _ _ _))

  timeless-progressing :
      (observed : Bool) (desired : ℤ)
      → timeless (progressing_status m now g observed desired s)
        ≡ written
            (progressing_writes g observed desired s.ready_replicas s.available_replicas)
            (timeless s)
  unfolding progressing_status set_runtime_condition
  timeless-progressing observed desired =
      rw set_availability-eq-write (ap (λ cs. record s { conditions = cs }) (four _ _ _ _))

  timeless-deployed :
      (d : Deployment) (desired : ℤ)
      → timeless (deployed_status m now g d desired s)
        ≡ written (deployed_writes g d desired s.ready_replicas s.available_replicas) (timeless s)
  unfolding deployed_status
  timeless-deployed d desired = elim (Bool-cases (desired ==ℤ pos 0)) [
    | inl e ↦
        rw e
          (elim (Bool-cases (
            deployment_observed d
            && s.ready_replicas ==ℤ pos 0
            && s.available_replicas ==ℤ pos 0)) [
              | inl f ↦ rw f timeless-at_zero
              | inr f ↦ rw f timeless-towards_zero
            ])
    | inr e ↦ rw e (elim (Option-cases (deployment_failure d)) [
      | inl f ↦
          rw f
            (elim (Bool-cases (
              deployment_observed d
              && s.ready_replicas ==ℤ desired
              && s.available_replicas ==ℤ desired)) [
                | inl g ↦ rw g timeless-ready
                | inr g ↦ rw g (timeless-progressing (deployment_observed d) desired)
              ])
      | inr ((reason, message), f) ↦ rw f (timeless-failed reason message desired)
    ])
  ]

module _ {m : ConditionApi} (laws : IsConditionApi m) (inplace : SetsInPlace m) (now : ℕ) where
  timeless-observed :
      (r : TrussiumRuntime) (d : Option Deployment) (s : TrussiumRuntimeStatus)
      → s.ready_replicas ≡ ready_count d
      → s.available_replicas ≡ available_count d
      → timeless (observed_outcome m now r d s) ≡ written (observed_writes r d) (timeless s)
  timeless-observed r none s ready available =
      timeless-missing laws inplace now r.meta.generation s _
      ∙ ap
          (λ a.
            written (missing_writes r.meta.generation (desired_replica_count r none) a)
              (timeless s))
          available
  timeless-observed r (some d) s ready available =
      let writes = deployed_writes r.meta.generation d (desired_replica_count r (some d)) in
      timeless-deployed laws inplace now r.meta.generation s d _
      ∙ (ap (λ a. written (writes s.ready_replicas a) (timeless s)) available
          ∙ ap (λ b. written (writes b d.status.available_replicas) (timeless s)) ready)

  -- buildBaseRuntimeStatus makes the writes of the list, on the status with the observed fields.
  -- Conditions are set and found as the library documents it.
  pub timeless-build_base :
      (r : TrussiumRuntime) (o : RuntimeObservation) (v : ReferenceValidationResult)
      → timeless (build_base_runtime_status m now r o v)
        ≡ written (base_writes r o v) (timeless (observed_status r o))
  unfolding build_base_runtime_status base_writes set_runtime_condition
  timeless-build_base r o v =
      let g = r.meta.generation in
      let valid_status =
        set_runtime_condition m now (observed_status r o) g
          Constants.condition_type_configuration_valid cond_true
          Constants.reason_references_resolved "All referenced Secrets are available." in
      elim v.valid
        as (λ b.
          timeless (
            if not b
            then invalid_status m now g v (desired_replicas r) (observed_status r o)
            else observed_outcome m now r o.deployment valid_status)
          ≡ written
              (if not b
                then invalid_writes g v (desired_replicas r) (available_count o.deployment)
                else says g Constants.condition_type_configuration_valid true
                    Constants.reason_references_resolved "All referenced Secrets are available."
                  ∷ observed_writes r o.deployment)
              (timeless (observed_status r o))) [
                | true ↦
                    timeless-observed r o.deployment valid_status refl refl
                    ∙ ap
                        (λ cs.
                          written (observed_writes r o.deployment)
                            (record (observed_status r o) { conditions = cs }))
                        (bare-set laws inplace now _ _)
                | false ↦
                    timeless-invalid laws inplace now g (observed_status r o) v (desired_replicas r)
              ]

deployed-no_upgrading :
    (g : ℤ) (d : Deployment) (desired ready available : ℤ)
    → holds Constants.condition_type_upgrading (deployed_writes g d desired ready available) ≡ false
deployed-no_upgrading g d desired ready available = elim (Bool-cases (desired ==ℤ pos 0)) [
  | inl e ↦
      rw e (elim (Bool-cases (deployment_observed d && ready ==ℤ pos 0 && available ==ℤ pos 0)) [
        | inl f ↦ rw f
        | inr f ↦ rw f
      ])
  | inr e ↦ rw e (elim (Option-cases (deployment_failure d)) [
    | inl f ↦
        rw f
          (elim (Bool-cases (deployment_observed d && ready ==ℤ desired && available ==ℤ desired)) [
            | inl g ↦ rw g
            | inr g ↦ rw g
          ])
    | inr ((reason, message), f) ↦ rw f
  ])
]

observed-no_upgrading :
    (r : TrussiumRuntime) (d : Option Deployment)
    → holds Constants.condition_type_upgrading (observed_writes r d) ≡ false
observed-no_upgrading r none = refl
observed-no_upgrading r (some d) = deployed-no_upgrading r.meta.generation d _ _ _

-- The Upgrading condition is not among the writes.
pub base-no_upgrading :
    (r : TrussiumRuntime) (o : RuntimeObservation) (v : ReferenceValidationResult)
    → holds Constants.condition_type_upgrading (base_writes r o v) ≡ false
unfolding base_writes
base-no_upgrading r o v = elim (Bool-cases v.valid) [
  | inl e ↦ rw e (observed-no_upgrading r o.deployment)
  | inr e ↦ rw e
]
