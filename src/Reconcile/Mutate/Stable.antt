-- ===== src/Reconcile/Mutate/Stable.antt =====
-- The mutations settle: applied to their own result, they change nothing.
use trussium_operator.Prelude.{◌≡◌, refl, sym, ap, subst, ◌∙◌, Option, none, some, arith}
use trussium_operator.Prelude.Int.{ℤ}
use trussium_operator.Kube.{ObjectMeta}
use trussium_operator.Kube.Errors.{Result, ok, err}
use trussium_operator.Kube.Workload.{Deployment}
use trussium_operator.Kube.Network.{Service, NetworkPolicy}
use trussium_operator.Kube.Objects.{
  ConfigMap, ServiceAccount, PodDisruptionBudget, HorizontalPodAutoscaler,
}
use trussium_operator.Api.{TrussiumRuntime, RuntimeNetworkPolicySpec}
use trussium_operator.Resources.Deployments.{managed_meta, build_deployment}
use trussium_operator.Resources.Objects.{
  build_config_map, build_service_account, build_service, build_pod_disruption_budget,
  build_network_policy, build_horizontal_pod_autoscaler,
}
use trussium_operator.Reconcile.Platform.{Platform}
use trussium_operator.Reconcile.Mutate.{
  with_meta, with_meta-ok, relabelled, kept_replicas, mutate_config_map, mutate_service_account,
  mutate_service, mutate_deployment, mutate_pod_disruption_budget, mutate_network_policy,
  mutate_horizontal_pod_autoscaler,
}

-- SetControllerReference changes the owners only, and is done when they are set.
pub record IsOwnership (p : Platform) : Type 0 where
  pub keeps_labels :
      (r : TrussiumRuntime) (m n : ObjectMeta)
      → p.set_controller_reference r m ≡ ok n
      → n.labels ≡ m.labels
  pub again :
      (r : TrussiumRuntime) (m n : ObjectMeta)
      → p.set_controller_reference r m ≡ ok n
      → p.set_controller_reference r n ≡ ok n

-- What the mutation has stored, it stores again.
abbrev pub Stable : {A : Type 0} → (A → Result A) → Type 0
Stable {A} f = (a b : A) → f a ≡ ok b → f b ≡ ok b

-- A mutation, and once more on what it gives.
abbrev pub again_on : {A : Type 0} → (A → Result A) → Result A → Result A
again_on f (ok b) = f b
again_on f (err e) = err e

abbrev pub twice : {A : Type 0} → (A → Result A) → A → Result A
twice f a = again_on f (f a)

twice-Stable : {A : Type 0} (f : A → Result A) → Stable f → (a : A) → twice f a ≡ f a
twice-Stable f stable a = go (f a) refl
  where
    go : (x : Result _) → f a ≡ x → again_on f x ≡ x
    go (ok b) e = stable a b e
    go (err x) e = refl

kept-kept :
    (r : TrussiumRuntime) (current desired : Option ℤ)
    → kept_replicas r (kept_replicas r current desired) desired ≡ kept_replicas r current desired
kept-kept r none desired = ground arith
kept-kept r (some n) desired = ground arith

module _ (p : Platform) (owns : IsOwnership p) (r : TrussiumRuntime) where
  owned-again :
      (current desired n : ObjectMeta)
      → p.set_controller_reference r (relabelled current desired) ≡ ok n
      → p.set_controller_reference r (relabelled n desired) ≡ ok n
  owned-again current desired n h =
      ap (λ (l : _). p.set_controller_reference r (record n { labels = l }))
        (sym (owns.keeps_labels r (relabelled current desired) n h))
      ∙ owns.again r (relabelled current desired) n h

  -- A mutation that sets the owner and writes fields that its own result keeps.
  with_meta-Stable :
      {A : Type 0} (meta_of : A → ObjectMeta) (write : A → ObjectMeta → A) (desired : ObjectMeta)
      → ((a : A) (m : ObjectMeta) → meta_of (write a m) ≡ m)
      → ((a : A) (m : ObjectMeta) → write (write a m) m ≡ write a m)
      → Stable
          (λ a. with_meta (write a) (p.set_controller_reference r (relabelled (meta_of a) desired)))
  with_meta-Stable meta_of write desired same idem a b h =
      let (m, owned, e) = with_meta-ok (write a) _ b h in
      subst
        (λ x.
          with_meta (write x) (p.set_controller_reference r (relabelled (meta_of x) desired))
          ≡ ok x)
        e
        (subst
          (λ n.
            with_meta (write (write a m)) (p.set_controller_reference r (relabelled n desired))
            ≡ ok (write a m))
          (sym (same a m)) (rw (owned-again (meta_of a) desired m owned) (ap ok (idem a m))))

  mutations-Stable :
      (n : RuntimeNetworkPolicySpec)
      → Stable (mutate_config_map p r)
        × Stable (mutate_service_account p r)
        × Stable (mutate_service p r)
        × Stable (mutate_deployment p r)
        × Stable (mutate_pod_disruption_budget p r)
        × Stable (mutate_network_policy p r n)
        × Stable (mutate_horizontal_pod_autoscaler p r)
  unfolding mutate_config_map mutate_service_account mutate_service mutate_deployment
      mutate_pod_disruption_budget mutate_network_policy mutate_horizontal_pod_autoscaler
      build_config_map build_service_account build_service build_deployment
      build_pod_disruption_budget build_network_policy build_horizontal_pod_autoscaler
  mutations-Stable n = (
    with_meta-Stable (λ a. a.meta) _ (managed_meta r) (λ a m. refl) (λ a m. refl),
    with_meta-Stable (λ a. a.meta) _ (managed_meta r) (λ a m. refl) (λ a m. refl),
    with_meta-Stable (λ a. a.meta) _ (managed_meta r) (λ a m. refl) (λ a m. refl),
    with_meta-Stable (λ a. a.meta) _ (managed_meta r) (λ a m. refl)
        (λ a m.
          ap
            (λ x. record a {
              meta = m;
              spec = record ((build_deployment p.sha256_hex r).spec) { replicas = x };
            })
            (kept-kept r a.spec.replicas (build_deployment p.sha256_hex r).spec.replicas)),
    with_meta-Stable (λ a. a.meta) _ (managed_meta r) (λ a m. refl) (λ a m. refl),
    with_meta-Stable (λ a. a.meta) _ (managed_meta r) (λ a m. refl) (λ a m. refl),
    with_meta-Stable (λ a. a.meta) _ (managed_meta r) (λ a m. refl) (λ a m. refl),
  )

  -- Where setting the owner keeps the labels and does nothing the second time, a mutation of each of
  -- the seven kinds, applied to the object that it has just produced, gives the same object: a second
  -- pass over the same specification asks for no change.
  pub mutations_settle :
      (n : RuntimeNetworkPolicySpec) (c : ConfigMap) (a : ServiceAccount) (s : Service)
      (d : Deployment) (b : PodDisruptionBudget) (l : NetworkPolicy) (h : HorizontalPodAutoscaler)
      → (twice (mutate_config_map p r) c ≡ mutate_config_map p r c)
        × (twice (mutate_service_account p r) a ≡ mutate_service_account p r a)
        × (twice (mutate_service p r) s ≡ mutate_service p r s)
        × (twice (mutate_deployment p r) d ≡ mutate_deployment p r d)
        × (twice (mutate_pod_disruption_budget p r) b ≡ mutate_pod_disruption_budget p r b)
        × (twice (mutate_network_policy p r n) l ≡ mutate_network_policy p r n l)
        × (twice (mutate_horizontal_pod_autoscaler p r) h ≡ mutate_horizontal_pod_autoscaler p r h)
  mutations_settle n c a s d b l h =
      let (fc, fa, fs, fd, fb, fl, fh) = mutations-Stable n in
      (
        twice-Stable _ fc c,
        twice-Stable _ fa a,
        twice-Stable _ fs s,
        twice-Stable _ fd d,
        twice-Stable _ fb b,
        twice-Stable _ fl l,
        twice-Stable _ fh h,
      )
