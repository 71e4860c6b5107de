-- ===== src/Reconcile/Wiring.antt =====
-- What wires the reconciler to the cluster, of internal/controller/trussiumruntime_controller.go: the
-- watches of SetupWithManager, and the role of the kubebuilder markers above Reconcile.
use trussium_operator.Prelude.{String, Bool, true, List, [], ◌∷◌}

-- The kinds of object that the operator deals with.
pub data Kind : Type 0 where
  trussium_runtime config_map service_account service deployment pod_disruption_budget : Kind
  network_policy horizontal_pod_autoscaler secret : Kind

-- A controller as its builder is told: For with its predicate, Owns, Watches and Named.
pub record Wiring : Type 0 where
  pub reconciled : Kind
  -- builder.WithPredicates(predicate.GenerationChangedPredicate{})
  pub on_generation_change_only : Bool
  pub owned : List Kind
  -- The kinds whose objects are mapped to requests by mapSecretToRuntimes.
  pub mapped : List Kind
  pub name : String

-- The chain of calls on the builder, up to Complete.
abbrev pub setup_with_manager : Wiring
setup_with_manager = record {
  reconciled = trussium_runtime;
  on_generation_change_only = true;
  owned =
      config_map ∷ service_account ∷ service ∷ deployment ∷ pod_disruption_budget ∷ network_policy
      ∷ horizontal_pod_autoscaler ∷ [];
  mapped = secret ∷ [];
  name = "trussiumruntime";
}

pub record Rule : Type 0 where
  pub groups : List String
  pub resources : List String
  pub verbs : List String

abbrev pub managed_verbs : List String
managed_verbs = "get" ∷ "list" ∷ "watch" ∷ "create" ∷ "update" ∷ "patch" ∷ "delete" ∷ []

abbrev pub manager_role : List Rule
manager_role =
    record {
      groups = "runtime.trussium.io" ∷ [];
      resources = "trussiumruntimes" ∷ [];
      verbs = "get" ∷ "list" ∷ "watch" ∷ [];
    }
    ∷ record {
      groups = "runtime.trussium.io" ∷ [];
      resources = "trussiumruntimes/status" ∷ [];
      verbs = "get" ∷ "update" ∷ "patch" ∷ [];
    }
    ∷ record {
      groups = "" ∷ [];
      resources = "configmaps" ∷ "serviceaccounts" ∷ "services" ∷ [];
      verbs = managed_verbs;
    }
    ∷ record { groups = "" ∷ []; resources = "secrets" ∷ []; verbs = "get" ∷ "list" ∷ "watch" ∷ [] }
    ∷ record { groups = "apps" ∷ []; resources = "deployments" ∷ []; verbs = managed_verbs }
    ∷ record {
      groups = "events.k8s.io" ∷ [];
      resources = "events" ∷ [];
      verbs = "create" ∷ "patch" ∷ [];
    }
    ∷ record {
      groups = "policy" ∷ [];
      resources = "poddisruptionbudgets" ∷ [];
      verbs = managed_verbs;
    }
    ∷ record {
      groups = "networking.k8s.io" ∷ [];
      resources = "networkpolicies" ∷ [];
      verbs = managed_verbs;
    }
    ∷ record {
      groups = "autoscaling" ∷ [];
      resources = "horizontalpodautoscalers" ∷ [];
      verbs = managed_verbs;
    }
    ∷ []
