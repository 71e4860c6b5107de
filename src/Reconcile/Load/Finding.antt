-- ===== src/Reconcile/Load/Finding.antt =====
-- What validateSecretReferences of runtime_status.go finds, and in which order it asks.
use trussium_operator.Prelude.{◌≡◌, String, true, List, contains, if◌then◌else◌}
use trussium_operator.Prelude.Sort.Unique.{IsAscending}
use trussium_operator.Api.{TrussiumRuntime}
use trussium_operator.Reconcile.Platform.{Platform}
use trussium_operator.Reconcile.Secrets.{is_credential, is_pulled}

-- The list has exactly the Secrets that the runtime names, in ascending order, each once.
abbrev pub AreNamed : TrussiumRuntime → List String → Type 0
AreNamed r names =
    IsAscending names
    × ((a : String)
        → contains names a ≡ (
            if is_credential a r.spec.provider.credentials_secret_ref
            then true
            else is_pulled a r.spec.image_pull_secrets))
