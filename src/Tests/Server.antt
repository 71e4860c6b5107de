-- ===== src/Tests/Server.antt =====
-- A concrete API server, with one runtime and one Deployment in it.
use trussium_operator.Prelude.{
  ◌≡◌, refl, sym, ap, subst, String, Bool, true, false, Option, none, some, List, [], ◌∷◌, ◌==◌,
  contains, if◌then◌else◌,
}
use trussium_operator.Kube.{NamespacedName, ObjectMeta, OwnerReference}
use trussium_operator.Kube.Errors.{Error, Result, ok, err, api, wrap, join}
use trussium_operator.Kube.Workload.{Deployment}
use trussium_operator.Api.{TrussiumRuntime}
use trussium_operator.Events.{runtime_key}
use trussium_operator.Reconcile.Platform.{Platform}
use trussium_operator.Reconcile.Monad.{World}
use trussium_operator.Reconcile.Mutate.Stable.{IsOwnership}
use trussium_operator.Tests.Conditions.{condition_table}
use trussium_operator.Tests.Equality.{statuses_eqb}
use trussium_operator.Tests.Fixtures.{demo, served, not_found, plain_digest}

-- The names of the Secrets, the runtime and the Deployment that are stored. The other kinds are
-- accepted and not looked at again.
pub record Server : Type 0 where
  pub secrets : List String
  pub runtime : Option TrussiumRuntime
  pub deployment : Option Deployment

abbrev pub is_not_found : Error → Bool
is_not_found (api reason message) = reason == "NotFound"
is_not_found (wrap context e) = is_not_found e
is_not_found (join d e) = false

abbrev pub found : {A : Type 0} → Option A → Result A
found none = err not_found
found (some a) = ok a

abbrev pub owner_of : TrussiumRuntime → OwnerReference
owner_of r = record { owner = runtime_key r; is_controller = true }

-- The runtime becomes the only owner.
abbrev pub set_owner : TrussiumRuntime → ObjectMeta → Result ObjectMeta
set_owner r m = ok (record m { owner_references = owner_of r ∷ [] })

abbrev accepted :
    {A : Type 0} → NamespacedName → (A → Result A) → Server → Result (Unit {0}) × Server
accepted k f s = (ok tt, s)

abbrev pub base_deployment : Option Deployment → Deployment
base_deployment none = served
base_deployment (some d) = d

abbrev stored : Server → Result Deployment → Result (Unit {0}) × Server
stored s (ok d) = (ok tt, record s { deployment = some d })
stored s (err e) = (err e, s)

abbrev pub server : Platform
server = record {
  Cluster = Server;
  is_not_found = is_not_found;
  deep_equal = statuses_eqb;
  conditions = condition_table;
  sha256_hex = plain_digest;
  now = 100;
  recorder = true;
  set_controller_reference = set_owner;
  get_runtime = λ k s. (found s.runtime, s);
  get_secret = λ k s. (if contains s.secrets k.name then ok tt else err not_found, s);
  get_deployment = λ k s. (found s.deployment, s);
  get_service = λ k s. (err not_found, s);
  list_runtimes = λ n s. (ok (record { items = demo ∷ [] }), s);
  update_status = λ r s. (ok r, record s { runtime = some r });
  create_or_update_config_map = accepted;
  create_or_update_service_account = accepted;
  create_or_update_service = accepted;
  create_or_update_deployment = λ k f s. stored s (f (base_deployment s.deployment));
  create_or_update_pod_disruption_budget = accepted;
  create_or_update_network_policy = accepted;
  create_or_update_horizontal_pod_autoscaler = accepted;
  delete_network_policy = λ k s. (err not_found, s);
  delete_horizontal_pod_autoscaler = λ k s. (err not_found, s);
}

abbrev pub complete_server : Server
complete_server = record {
  secrets = "openai" ∷ "registry" ∷ [];
  runtime = some demo;
  deployment = some served;
}

abbrev pub calm : World Server
calm = record { cluster = complete_server; events = []; writes = [] }

-- The registry's Secret is missing.
abbrev pub lacking : World Server
lacking = record calm { cluster = record complete_server { secrets = "openai" ∷ [] } }

-- The runtime is gone.
abbrev pub emptied : World Server
emptied = record calm { cluster = record complete_server { runtime = none } }

set_owner-ok :
    (r : TrussiumRuntime) (m n : ObjectMeta)
    → set_owner r m ≡ ok n
    → record m { owner_references = owner_of r ∷ [] } ≡ n
set_owner-ok r m n h = cc

pub set_owner-keeps_labels :
    (r : TrussiumRuntime) (m n : ObjectMeta) → set_owner r m ≡ ok n → n.labels ≡ m.labels
set_owner-keeps_labels r m n h = ap (λ (x : ObjectMeta). x.labels) (sym (set_owner-ok r m n h))

pub set_owner-again :
    (r : TrussiumRuntime) (m n : ObjectMeta) → set_owner r m ≡ ok n → set_owner r n ≡ ok n
set_owner-again r m n h = subst (λ x. set_owner r x ≡ ok x) (set_owner-ok r m n h) refl

pub server_owns : IsOwnership server
server_owns = record { keeps_labels = set_owner-keeps_labels; again = set_owner-again }
