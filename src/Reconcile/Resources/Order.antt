-- ===== src/Reconcile/Resources/Order.antt =====
-- The order of the writes of reconcileCoreResources, and that the first failure ends them.
use mathlib.Core.List.{append-nil, append_assoc}
use trussium_operator.Prelude.{
  ◌≡◌, refl, ap, ◌∙◌, String, Bool, true, false, Option, none, some, List, [], ◌∷◌, ◌++◌,
  Bool-cases, inl, inr,
}
use trussium_operator.Kube.Errors.{Result, ok, err}
use trussium_operator.Api.{TrussiumRuntime, RuntimeNetworkPolicySpec}
use trussium_operator.Resources.Scale.{autoscaling_enabled}
use trussium_operator.Reconcile.Platform.{Platform}
use trussium_operator.Reconcile.Monad
use trussium_operator.Reconcile.Monad.{World, Write, M, ◌>>=◌, pure, guarded, step}
use trussium_operator.Reconcile.Resources.{
  enabled_policy, reconcile_config_map, reconcile_service_account, reconcile_service,
  reconcile_deployment, reconcile_pod_disruption_budget, reconcile_network_policy,
  reconcile_horizontal_pod_autoscaler, reconcile_core_resources, network_policy_step, context,
}

-- The writes of a pass over the managed objects, all of which succeed.
abbrev pub network_policy_write : Option RuntimeNetworkPolicySpec → Write
network_policy_write none = Monad.delete_network_policy
network_policy_write (some _) = Monad.put_network_policy

abbrev pub autoscaler_write : Bool → Write
autoscaler_write false = Monad.delete_horizontal_pod_autoscaler
autoscaler_write true = Monad.put_horizontal_pod_autoscaler

abbrev pub plan : TrussiumRuntime → List Write
plan r =
    Monad.put_config_map
    ∷ Monad.put_service_account
    ∷ Monad.put_service
    ∷ Monad.put_deployment
    ∷ Monad.put_pod_disruption_budget
    ∷ network_policy_write (enabled_policy r.spec.network_policy)
    ∷ autoscaler_write (autoscaling_enabled r)
    ∷ []

module _ {C : Type 0} where
  -- A step makes one writing call, and emits no Event.
  abbrev pub WritesOne : M C (Result (Unit {0})) → Write → Type 0
  WritesOne m k =
      (w : World C) → ((m w).1.writes ≡ w.writes ++ (k ∷ [])) × ((m w).1.events ≡ w.events)

  -- Steps make the calls of a list in order, all of them unless an error is returned.
  abbrev pub Follows : M C (Result (Unit {0})) → List Write → Type 0
  Follows m writes =
      (w : World C)
      → (done : List Write) × (rest : List Write) × (done ++ rest ≡ writes)
        × ((m w).1.writes ≡ w.writes ++ done)
        × ((m w).1.events ≡ w.events)
        × ((m w).0 ≡ ok tt → rest ≡ [])

  Follows-pure : Follows (pure (ok tt)) []
  Follows-pure w = ([], [], refl, rw append-nil, refl, λ h. refl)

  Follows-step :
      (m : M C (Result (Unit {0}))) (context : String) (k : Write) (later : M C (Result (Unit {0})))
      (writes : List Write)
      → WritesOne m k
      → Follows later writes
      → Follows (step m context later) (k ∷ writes)
  unfolding step
  Follows-step m context k later writes one more w = go (m w).0 refl
    where
      go :
          (x : Result (Unit {0}))
          → (m w).0 ≡ x
          → (done : List Write) × (rest : List Write) × (done ++ rest ≡ k ∷ writes)
            × ((guarded context (m w).0 later (m w).1).1.writes ≡ w.writes ++ done)
            × ((guarded context (m w).0 later (m w).1).1.events ≡ w.events)
            × ((guarded context (m w).0 later (m w).1).0 ≡ ok tt → rest ≡ [])
      go (err e) h = (k ∷ [], writes, refl, rw h ((one w).0), rw h ((one w).1), rw h (λ g. cc))
      go (ok u) h =
          let (done, rest, whole, wrote, silent, complete) = more (m w).1 in
          (
            k ∷ done,
            rest,
            ap (◌∷◌ k) whole,
            rw h (
                wrote
                ∙ (ap (λ (l : List Write). l ++ done) (one w).0
                    ∙ append_assoc w.writes (k ∷ []) done)),
            rw h (silent ∙ (one w).1),
            rw h complete,
          )

module _ (p : Platform) (r : TrussiumRuntime) where
  network_policy-WritesOne :
      WritesOne
        (reconcile_network_policy p r)
        (network_policy_write (enabled_policy r.spec.network_policy))
  unfolding reconcile_network_policy
  network_policy-WritesOne w =
      elim (enabled_policy r.spec.network_policy)
        as (λ n.
          ((network_policy_step p r n w).1.writes ≡ w.writes ++ (network_policy_write n ∷ []))
          × ((network_policy_step p r n w).1.events ≡ w.events)) [
            | none ↦ (refl, refl)
            | some n ↦ (refl, refl)
          ]

  autoscaler-WritesOne :
      WritesOne (reconcile_horizontal_pod_autoscaler p r) (autoscaler_write (autoscaling_enabled r))
  unfolding reconcile_horizontal_pod_autoscaler
  autoscaler-WritesOne w = elim (Bool-cases (autoscaling_enabled r)) [
    | inl e ↦ rw e (refl, refl)
    | inr e ↦ rw e (refl, refl)
  ]

  -- The managed objects are written in a fixed order: ConfigMap, ServiceAccount, Service, Deployment,
  -- PodDisruptionBudget, then the NetworkPolicy and the autoscaler, each put if the specification
  -- enables it and deleted if not. An error ends the sequence; without one all seven are written. No
  -- Event is emitted.
  pub core_resources-Follows : Follows (reconcile_core_resources p r) (plan r)
  unfolding reconcile_core_resources reconcile_config_map reconcile_service_account
      reconcile_service reconcile_deployment reconcile_pod_disruption_budget
  core_resources-Follows =
      Follows-step _ _ _ _ _ (λ w. (refl, refl))
        (Follows-step _ _ _ _ _ (λ w. (refl, refl))
          (Follows-step _ _ _ _ _ (λ w. (refl, refl))
            (Follows-step _ _ _ _ _ (λ w. (refl, refl))
              (Follows-step _ _ _ _ _ (λ w. (refl, refl))
                (Follows-step _ _ _ _ _ network_policy-WritesOne
                  (Follows-step _ _ _ _ _ autoscaler-WritesOne Follows-pure))))))
