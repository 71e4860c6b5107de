-- ===== src/Manager.antt =====
-- cmd/main.go: the flags, the options of the servers and of the manager, and the start of the manager
-- with every way out. Parsing the command line is the flag package's, logging is left out.
pub mod Options
pub mod Startup
use trussium_operator.Prelude.{
  ℕ, String, Bool, true, false, not, Option, none, some, List, [], ◌∷◌, ◌++◌, ◌==◌, if◌then◌else◌,
}
use trussium_operator.Kube.Errors.{Result, ok, err}
use trussium_operator.Reconcile.Wiring.{Wiring, setup_with_manager}

-- The values of the flags.
pub record Flags : Type 0 where
  pub metrics_addr : String
  pub probe_addr : String
  pub enable_leader_election : Bool
  pub secure_metrics : Bool
  pub webhook_cert_path : String
  pub webhook_cert_name : String
  pub webhook_cert_key : String
  pub metrics_cert_path : String
  pub metrics_cert_name : String
  pub metrics_cert_key : String
  pub enable_http2 : Bool
  pub watch_namespace : String

-- The values where the command line names no flag.
abbrev pub default_flags : Flags
default_flags = record {
  metrics_addr = "0";
  probe_addr = ":8081";
  enable_leader_election = false;
  secure_metrics = true;
  webhook_cert_path = "";
  webhook_cert_name = "tls.crt";
  webhook_cert_key = "tls.key";
  metrics_cert_path = "";
  metrics_cert_name = "tls.crt";
  metrics_cert_key = "tls.key";
  enable_http2 = false;
  watch_namespace = "";
}

-- Of crypto/tls's Config the protocols that are offered.
pub record TlsConfig : Type 0 where
  pub next_protos : List String

abbrev pub TlsOpt : Type 0
TlsOpt = TlsConfig → TlsConfig

abbrev pub disable_http2 : TlsOpt
disable_http2 c = record c { next_protos = "http/1.1" ∷ [] }

unfoldable pub tls_opts : Flags → List TlsOpt
tls_opts f = if not f.enable_http2 then [] ++ (disable_http2 ∷ []) else []

-- The certificate's files, or empty texts.
pub record CertFiles : Type 0 where
  pub cert_dir : String
  pub cert_name : String
  pub key_name : String

-- `if len(path) > 0`, for both servers.
abbrev pub cert_files : String → String → String → CertFiles
cert_files path name key =
    if not (path == "")
    then record { cert_dir = path; cert_name = name; key_name = key }
    else record { cert_dir = ""; cert_name = ""; key_name = "" }

pub record WebhookOptions : Type 0 where
  pub tls : List TlsOpt
  pub cert : CertFiles

unfoldable pub webhook_options : Flags → WebhookOptions
webhook_options f = record {
  tls = tls_opts f;
  cert = cert_files f.webhook_cert_path f.webhook_cert_name f.webhook_cert_key;
}

-- How the metrics endpoint admits a request.
pub data FilterProvider : Type 0 where
  with_authentication_and_authorization : FilterProvider

pub record MetricsOptions : Type 0 where
  pub bind_address : String
  pub secure_serving : Bool
  pub tls : List TlsOpt
  pub filter_provider : Option FilterProvider
  pub cert : CertFiles

unfoldable pub metrics_options : Flags → MetricsOptions
metrics_options f = record {
  bind_address = f.metrics_addr;
  secure_serving = f.secure_metrics;
  tls = tls_opts f;
  filter_provider = if f.secure_metrics then some with_authentication_and_authorization else none;
  cert = cert_files f.metrics_cert_path f.metrics_cert_name f.metrics_cert_key;
}

-- ctrl.Options. The scheme is apimachinery's.
pub record ManagerOptions (Scheme : Type 0) : Type 0 where
  pub scheme : Scheme
  pub metrics : MetricsOptions
  pub webhook : WebhookOptions
  pub health_probe_bind_address : String
  pub leader_election : Bool
  pub leader_election_id : String
  -- The namespaces of the cache; the empty list is all of them.
  pub default_namespaces : List String

unfoldable pub manager_options : {Scheme : Type 0} → Scheme → Flags → ManagerOptions Scheme
manager_options scheme f = record {
  scheme = scheme;
  metrics = metrics_options f;
  webhook = webhook_options f;
  health_probe_bind_address = f.probe_addr;
  leader_election = f.enable_leader_election;
  leader_election_id = "d4fd4c09.trussium.io";
  default_namespaces = if not (f.watch_namespace == "") then f.watch_namespace ∷ [] else [];
}

-- The calls of controller-runtime, in the order they are made.
pub data Call (Scheme : Type 0) : Type 0 where
  get_config : Call Scheme
  new_manager : ManagerOptions Scheme → Call Scheme
  set_up : Wiring → Call Scheme
  add_healthz_check add_readyz_check : String → Call Scheme
  start : Call Scheme

-- How the process ends: os.Exit, or main returns.
pub data Ending : Type 0 where
  exited : ℕ → Ending
  returned : Ending

-- What controller-runtime answers to a call, given the calls before it. GetConfigOrDie fails by
-- exiting itself. Start answers when the manager stops.
abbrev pub Host : Type 0 → Type 0
Host Scheme = List (Call Scheme) → Call Scheme → Result (Unit {0})

-- The end of the process, and the calls that were made.
abbrev pub Run : Type 0 → Type 0
Run Scheme = Ending × List (Call Scheme)

-- `if err := call; err != nil { os.Exit(1) }`, and what follows.
abbrev pub or_exit :
    {Scheme : Type 0}
    → Result (Unit {0})
    → List (Call Scheme)
    → (List (Call Scheme) → Run Scheme)
    → Run Scheme
or_exit (ok _) made rest = rest made
or_exit (err _) made rest = (exited 1, made)

module _ {Scheme : Type 0} (host : Host Scheme) where
  unfoldable pub try_call :
      Call Scheme → (List (Call Scheme) → Run Scheme) → List (Call Scheme) → Run Scheme
  try_call call rest made = or_exit (host made call) (made ++ (call ∷ [])) rest

  unfoldable pub main : Scheme → Flags → Run Scheme
  main scheme f =
      try_call get_config
        (try_call (new_manager (manager_options scheme f)) (
          try_call (set_up setup_with_manager) (
            try_call (add_healthz_check "healthz")
              (try_call (add_readyz_check "readyz") (try_call start (λ made. (returned, made)))))))
        []
