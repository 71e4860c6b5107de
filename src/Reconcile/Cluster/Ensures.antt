-- ===== src/Reconcile/Cluster/Ensures.antt =====
-- The steps of reconcileCoreResources, as relations between what the cluster holds before and after.
use trussium_operator.Prelude.{◌≡◌, refl, sym, subst, String}
use trussium_operator.Kube.Errors.{Result, ok, err}
use trussium_operator.Api.{TrussiumRuntime}
use trussium_operator.Reconcile.Platform.{Platform}
use trussium_operator.Reconcile.Monad.{World, M, pure, guarded, step}
use trussium_operator.Reconcile.Cluster.{held, Managed, IsStore}

-- A step that succeeds has made its action succeed, and what follows it.
step-ok :
    {C : Type 0} (action : M C (Result (Unit {0}))) (text : String) (rest : M C (Result (Unit {0})))
    (w : World C)
    → (step action text rest w).0 ≡ ok tt
    → ((action w).0 ≡ ok tt)
      × ((rest (action w).1).0 ≡ ok tt)
      × ((step action text rest w).1 ≡ (rest (action w).1).1)
unfolding step
step-ok {C} action text rest w = go (action w).0 (action w).1
  where
    go :
        (x : Result (Unit {0})) (w' : World C)
        → (guarded text x rest w').0 ≡ ok tt
        → (x ≡ ok tt) × ((rest w').0 ≡ ok tt) × ((guarded text x rest w').1 ≡ (rest w').1)
    go (ok tt) w' h = (refl, h, refl)
    go (err e) w' h = cc

module _ {p : Platform} (store : IsStore p) (r : TrussiumRuntime) where
  -- Where the action succeeds, the objects before and after it are so related.
  unfoldable pub Ensures : M p.Cluster (Result (Unit {0})) → (Managed → Managed → Type 0) → Type 0
  Ensures action R =
      (w : World p.Cluster) → (action w).0 ≡ ok tt → R (held store r w) (held store r (action w).1)

  -- One relation and then another.
  abbrev pub Then :
      (Managed → Managed → Type 0) → (Managed → Managed → Type 0) → Managed → Managed → Type 0
  Then R S x z = (y : Managed) × R x y × S y z

  pub step-Ensures :
      (action : M p.Cluster (Result (Unit {0}))) (text : String)
      (rest : M p.Cluster (Result (Unit {0}))) (R S : Managed → Managed → Type 0)
      → Ensures action R
      → Ensures rest S
      → Ensures (step action text rest) (Then R S)
  unfolding Ensures
  step-Ensures action text rest R S first then w h =
      let (done, rest_done, same) = step-ok action text rest w h in
      (
        held store r (action w).1,
        first w done,
        subst (λ v. S (held store r (action w).1) (held store r v)) (sym same)
            (then (action w).1 rest_done),
      )

  pub done-Ensures : Ensures (pure (ok tt)) (λ x y. y ≡ x)
  unfolding Ensures
  done-Ensures w h = refl
