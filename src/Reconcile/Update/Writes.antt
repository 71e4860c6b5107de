-- ===== src/Reconcile/Update/Writes.antt =====
-- The writing calls of updateRuntimeStatus.
use trussium_operator.Prelude.{◌≡◌, refl, ◌⊎◌, inl, inr, List, [], ◌∷◌, ◌++◌, Bool-cases}
use trussium_operator.Api.{TrussiumRuntime, TrussiumRuntimeStatus}
use trussium_operator.Reconcile.Platform.{Platform}
use trussium_operator.Reconcile.Monad
use trussium_operator.Reconcile.Monad.{World, Write}
use trussium_operator.Reconcile.Update.{normalized, update_runtime_status}

-- One more status update, or none.
abbrev pub AtMostStatus : List Write → List Write → Type 0
AtMostStatus before after = (after ≡ before) ⊎ (after ≡ before ++ (Monad.put_status ∷ []))

module _ (p : Platform) where
  pub update-AtMostStatus :
      (r : TrussiumRuntime) (desired : TrussiumRuntimeStatus) (w : World p.Cluster)
      → AtMostStatus w.writes (update_runtime_status p r desired w).1.writes
        × ((update_runtime_status p r desired w).1.events ≡ w.events)
  unfolding update_runtime_status
  update-AtMostStatus r desired w =
      elim (Bool-cases (p.deep_equal r.status (normalized p r desired))) [
        | inl e ↦ rw e (inl refl, refl)
        | inr e ↦ rw e (inr refl, refl)
      ]
