-- ===== src/Reconcile/Pass/Willing.antt =====
-- An API server that fails no call, and the steps of reconcileCoreResources against it.
use trussium_operator.Prelude.{
  ◌≡◌, ◌⊎◌, refl, inl, inr, String, Bool, true, false, Option, none, some,
}
use trussium_operator.Kube.{NamespacedName, ObjectMeta}
use trussium_operator.Kube.Errors.{Error, Result, ok, err}
use trussium_operator.Api.{TrussiumRuntime, RuntimeNetworkPolicySpec}
use trussium_operator.Events.{runtime_key}
use trussium_operator.Reconcile.Platform.{Platform}
use trussium_operator.Reconcile.Monad.{World, M, step}
use trussium_operator.Reconcile.Mutate.{
  with_meta, mutate_config_map, mutate_service_account, mutate_service, mutate_deployment,
  mutate_pod_disruption_budget, mutate_network_policy, mutate_horizontal_pod_autoscaler,
}
use trussium_operator.Reconcile.Resources.{
  ignore_not_found, reconcile_config_map, reconcile_service_account, reconcile_service,
  reconcile_deployment, reconcile_pod_disruption_budget, reconcile_network_policy,
  reconcile_horizontal_pod_autoscaler, reconcile_core_resources, network_policy_step,
  autoscaler_step,
}

-- A call answers with a value.
abbrev pub IsOk : {A : Type 0} → Result A → Type 0
IsOk {A} x = (a : A) × (x ≡ ok a)

-- A call answers with a value, or with an error that says NotFound.
abbrev pub IsAnswered : (Error → Bool) → {A : Type 0} → Result A → Type 0
IsAnswered gone x = IsOk x ⊎ ((e : Error) × (x ≡ err e) × (gone e ≡ true))

-- CreateOrUpdate succeeds for every mutation that does.
abbrev pub Accepts :
    {C A : Type 0} → (NamespacedName → (A → Result A) → C → Result (Unit {0}) × C) → Type 0
Accepts {C} {A} call =
    (k : NamespacedName) (f : A → Result A)
    → ((a : A) → IsOk (f a))
    → (c : C) → (call k f c).0 ≡ ok tt

-- No call fails, whatever the cluster's state: reads and deletions may say NotFound.
pub record IsWilling (p : Platform) : Type 0 where
  pub owner_set : (r : TrussiumRuntime) (m : ObjectMeta) → IsOk (p.set_controller_reference r m)
  pub deployment_read :
      (k : NamespacedName) (c : p.Cluster) → IsAnswered p.is_not_found (p.get_deployment k c).0
  pub service_read :
      (k : NamespacedName) (c : p.Cluster) → IsAnswered p.is_not_found (p.get_service k c).0
  pub status_stored : (r : TrussiumRuntime) (c : p.Cluster) → IsOk (p.update_status r c).0
  pub config_map_stored : Accepts p.create_or_update_config_map
  pub service_account_stored : Accepts p.create_or_update_service_account
  pub service_stored : Accepts p.create_or_update_service
  pub deployment_stored : Accepts p.create_or_update_deployment
  pub budget_stored : Accepts p.create_or_update_pod_disruption_budget
  pub network_policy_stored : Accepts p.create_or_update_network_policy
  pub autoscaler_stored : Accepts p.create_or_update_horizontal_pod_autoscaler
  pub network_policy_deleted :
      (k : NamespacedName) (c : p.Cluster)
      → IsAnswered p.is_not_found (p.delete_network_policy k c).0
  pub autoscaler_deleted :
      (k : NamespacedName) (c : p.Cluster)
      → IsAnswered p.is_not_found (p.delete_horizontal_pod_autoscaler k c).0

with_meta-IsOk :
    {A : Type 0} (f : ObjectMeta → A) (x : Result ObjectMeta) → IsOk x → IsOk (with_meta f x)
with_meta-IsOk f x (m, e) = (f m, rw e refl)

module _ {C : Type 0} where
  abbrev pub Succeeds : M C (Result (Unit {0})) → Type 0
  Succeeds m = (w : World C) → (m w).0 ≡ ok tt

  step-Succeeds :
      (m : M C (Result (Unit {0}))) (context : String) (later : M C (Result (Unit {0})))
      → Succeeds m
      → Succeeds later
      → Succeeds (step m context later)
  unfolding step
  step-Succeeds m context later one more w = rw (one w) (more (m w).1)

module _ (p : Platform) (willing : IsWilling p) (r : TrussiumRuntime) where
  ignored : (x : Result (Unit {0})) → IsAnswered p.is_not_found x → ignore_not_found p x ≡ ok tt
  ignored x (inl (tt, e)) = rw e refl
  ignored x (inr (e, failed, gone)) = rw (failed, gone) refl

  network_policy-Succeeds :
      (n : Option RuntimeNetworkPolicySpec) → Succeeds (network_policy_step p r n)
  unfolding mutate_network_policy
  network_policy-Succeeds none w =
      ignored _ (willing.network_policy_deleted (runtime_key r) w.cluster)
  network_policy-Succeeds (some n) w =
      willing.network_policy_stored (runtime_key r) (mutate_network_policy p r n)
        (λ a. with_meta-IsOk _ _ (willing.owner_set r _)) w.cluster

  autoscaler-Succeeds : (b : Bool) → Succeeds (autoscaler_step p r b)
  unfolding mutate_horizontal_pod_autoscaler
  autoscaler-Succeeds false w = ignored _ (willing.autoscaler_deleted (runtime_key r) w.cluster)
  autoscaler-Succeeds true w =
      willing.autoscaler_stored (runtime_key r) (mutate_horizontal_pod_autoscaler p r)
        (λ a. with_meta-IsOk _ _ (willing.owner_set r _)) w.cluster

  pub core_resources-Succeeds : Succeeds (reconcile_core_resources p r)
  unfolding reconcile_core_resources reconcile_config_map reconcile_service_account
      reconcile_service reconcile_deployment reconcile_pod_disruption_budget
      reconcile_network_policy reconcile_horizontal_pod_autoscaler mutate_config_map
      mutate_service_account mutate_service mutate_deployment mutate_pod_disruption_budget
  core_resources-Succeeds =
      step-Succeeds _ _ _
        (λ w. willing.config_map_stored _ _ (λ a. with_meta-IsOk _ _ (willing.owner_set r _)) _)
        (step-Succeeds _ _ _
          (λ w.
            willing.service_account_stored _ _ (λ a. with_meta-IsOk _ _ (willing.owner_set r _)) _)
          (step-Succeeds _ _ _
            (λ w. willing.service_stored _ _ (λ a. with_meta-IsOk _ _ (willing.owner_set r _)) _)
            (step-Succeeds _ _ _
              (λ w.
                willing.deployment_stored _ _ (λ a. with_meta-IsOk _ _ (willing.owner_set r _)) _)
              (step-Succeeds _ _ _
                (λ w. willing.budget_stored _ _ (λ a. with_meta-IsOk _ _ (willing.owner_set r _)) _)
                (step-Succeeds _ _ _ (network_policy-Succeeds _)
                  (step-Succeeds _ _ _ (autoscaler-Succeeds _) (λ w. refl)))))))
