-- ===== src/Reconcile/Load.antt =====
-- The reading steps: validateSecretReferences and loadRuntimeObservation of
-- internal/controller/runtime_status.go.
pub mod Reading
pub mod Finding
use trussium_operator.Prelude.{
  String, ◌<>◌, Bool, true, false, Option, none, some, List, [], ◌∷◌, if◌then◌else◌,
}
use trussium_operator.Kube.{NamespacedName}
use trussium_operator.Kube.Errors.{Error, Result, ok, err, wrap}
use trussium_operator.Kube.Workload.{Deployment}
use trussium_operator.Kube.Network.{Service}
use trussium_operator.Api.{TrussiumRuntime}
use trussium_operator.Status.Constants.{reason_secret_not_found, reason_reference_check_failed}
use trussium_operator.Status.References.{
  ReferenceValidationResult, valid_reference_validation, referenced_secret_names,
}
use trussium_operator.Status.Rollout.{RuntimeObservation}
use trussium_operator.Events.{runtime_key}
use trussium_operator.Reconcile.Platform.{Platform}
use trussium_operator.Reconcile.Monad.{M, ◌>>=◌, pure, reading}

-- `"%s/%s"` of namespace and name.
abbrev pub slashed : NamespacedName → String
slashed k = k.namespace <> "/" <> k.name

-- `%q` of a Secret's name: the schema admits names that need no escapes.
abbrev quoted : String → String
quoted s = "\"" <> s <> "\""

abbrev pub secret_missing : String → ReferenceValidationResult
secret_missing name = record {
  valid = false;
  reason = reason_secret_not_found;
  message = "Referenced Secret " <> quoted name <> " was not found.";
  error = none;
}

abbrev pub secret_unchecked : NamespacedName → Error → ReferenceValidationResult
secret_unchecked k e = record {
  valid = false;
  reason = reason_reference_check_failed;
  message = "Unable to verify referenced Secrets.";
  error = some (wrap ("get referenced Secret " <> slashed k) e);
}

abbrev pub secret_key : TrussiumRuntime → String → NamespacedName
secret_key r name = record { namespace = r.meta.namespace; name = name }

abbrev pub paired : Option Deployment → Result (Option Service) → Result RuntimeObservation
paired d (err e) = err e
paired d (ok s) = ok (record { deployment = d; service = s })

module _ (p : Platform) where
  -- The rest of one turn of the loop, when the call has returned.
  abbrev pub secret_checked :
      NamespacedName
      → Result (Unit {0})
      → M p.Cluster ReferenceValidationResult
      → M p.Cluster ReferenceValidationResult
  secret_checked k (ok _) rest = rest
  secret_checked k (err e) rest =
      if p.is_not_found e then pure (secret_missing k.name) else pure (secret_unchecked k e)

  unfoldable pub check_secrets :
      TrussiumRuntime → List String → M p.Cluster ReferenceValidationResult
  check_secrets r [] = pure valid_reference_validation
  check_secrets r (name ∷ names) = do
    found ← reading (p.get_secret (secret_key r name))
    secret_checked (secret_key r name) found (check_secrets r names)

  unfoldable pub validate_secret_references :
      TrussiumRuntime → M p.Cluster ReferenceValidationResult
  unfolding check_secrets
  validate_secret_references r = check_secrets r (referenced_secret_names r)

  -- An object, none where it is not found, or the error.
  abbrev pub optional : {A : Type 0} → String → Result A → Result (Option A)
  optional context (ok a) = ok (some a)
  optional context (err e) = if p.is_not_found e then ok none else err (wrap context e)

  abbrev pub with_service :
      NamespacedName → Result (Option Deployment) → M p.Cluster (Result RuntimeObservation)
  with_service k (err e) = pure (err e)
  with_service k (ok d) = do
    found ← reading (p.get_service k)
    pure (paired d (optional ("get managed Service " <> slashed k) found))

  unfoldable pub load_runtime_observation :
      TrussiumRuntime → M p.Cluster (Result RuntimeObservation)
  load_runtime_observation r = do
    found ← reading (p.get_deployment (runtime_key r))
    with_service (runtime_key r)
        (optional ("get managed Deployment " <> slashed (runtime_key r)) found)
