-- ===== src/Reconcile/Monad.antt =====
-- The effects of a reconciliation: the cluster, the Events emitted, and the writing calls made.
use trussium_operator.Prelude.{List, [], ◌∷◌, ◌++◌}
use trussium_operator.Kube.Errors.{Result, ok, err, wrap}
use trussium_operator.Prelude.{String}
use trussium_operator.Events.{Event}

-- The calls that ask the API server for a change, in the order they are made.
pub data Write : Type 0 where
  put_config_map put_service_account put_service put_deployment put_pod_disruption_budget : Write
  put_network_policy delete_network_policy : Write
  put_horizontal_pod_autoscaler delete_horizontal_pod_autoscaler : Write
  put_status : Write

pub record World (C : Type 0) : Type 0 where
  pub cluster : C
  pub events : List Event
  pub writes : List Write

abbrev pub M : Type 0 → Type 0 → Type 0
M C A = World C → A × World C

infixl 5 ◌>>=◌ ◌>>◌
abbrev pub ◌>>=◌ : {C A B : Type 0} → M C A → (A → M C B) → M C B
◌>>=◌ m f w = f (m w).0 (m w).1

abbrev pub ◌>>◌ : {C B : Type 0} → M C (Unit {0}) → M C B → M C B
m >> k = m >>= λ _. k

abbrev pub pure : {C A : Type 0} → A → M C A
pure a w = (a, w)

-- A reading call.
abbrev pub reading : {C A : Type 0} → (C → A × C) → M C A
reading call w = ((call w.cluster).0, record w { cluster = (call w.cluster).1 })

-- A writing call.
abbrev pub writing : {C A : Type 0} → Write → (C → A × C) → M C A
writing kind call w = (
  (call w.cluster).0,
  record w { cluster = (call w.cluster).1; writes = w.writes ++ (kind ∷ []) },
)

abbrev pub emit : {C : Type 0} → List Event → M C (Unit {0})
emit events w = (tt, record w { events = w.events ++ events })

-- `if err := action; err != nil { return fmt.Errorf("context: %w", err) }`, and what follows.
abbrev pub guarded :
    {C : Type 0} → String → Result (Unit {0}) → M C (Result (Unit {0})) → M C (Result (Unit {0}))
guarded context (ok _) rest = rest
guarded context (err e) rest = pure (err (wrap context e))

-- A step, and what follows it unless it fails.
unfoldable pub step :
    {C : Type 0}
    → M C (Result (Unit {0}))
    → String
    → M C (Result (Unit {0}))
    → M C (Result (Unit {0}))
step action context rest = action >>= λ result. guarded context result rest
