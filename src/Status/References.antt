-- ===== src/Status/References.antt =====
-- The Secrets that a runtime names, and the result of checking them, of
-- internal/controller/runtime_status.go. The check itself calls the client, and stands in
-- Reconcile/Load.
use trussium_operator.Prelude.{
  String, Bool, true, Option, none, some, List, [], ◌∷◌, if◌then◌else◌, contains,
}
use trussium_operator.Prelude.Sort.{sort}
use trussium_operator.Kube.Errors.{Error}
use trussium_operator.Api.{NamedReference, SecretKeyReference, TrussiumRuntime}
use trussium_operator.Status.Constants.{reason_references_resolved}

pub record ReferenceValidationResult : Type 0 where
  pub valid : Bool
  pub reason : String
  pub message : String
  pub error : Option Error

abbrev pub valid_reference_validation : ReferenceValidationResult
valid_reference_validation = record {
  valid = true;
  reason = reason_references_resolved;
  message = "All referenced Secrets are available.";
  error = none;
}

-- `uniqueNames[name] = struct{}{}`: the keys of the set, each once.
abbrev pub add_name : List String → String → List String
add_name names name = if contains names name then names else name ∷ names

abbrev pub credential_name : Option SecretKeyReference → List String
credential_name none = []
credential_name (some s) = s.name ∷ []

-- The loop over the image-pull references.
unfoldable pub add_references : List String → List NamedReference → List String
add_references names [] = names
add_references names (reference ∷ rest) = add_references (add_name names reference.name) rest

-- The set `uniqueNames`. Its order does not matter: the names are sorted.
unfoldable pub unique_names : TrussiumRuntime → List String
unique_names r =
    add_references (credential_name r.spec.provider.credentials_secret_ref)
      r.spec.image_pull_secrets

unfoldable pub referenced_secret_names : TrussiumRuntime → List String
referenced_secret_names r = sort (unique_names r)

unfoldable pub runtime_references_secret : TrussiumRuntime → String → Bool
runtime_references_secret r name = contains (referenced_secret_names r) name
