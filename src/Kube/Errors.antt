-- ===== src/Kube/Errors.antt =====
-- Go's error values: an error of the API client with its reason, and the standard library's
-- fmt.Errorf with `%w` and errors.Join. apierrors.IsNotFound is a parameter of the client.
use trussium_operator.Prelude.{String, ◌<>◌}

pub data Error : Type 0 where
  api : String → String → Error
  wrap : String → Error → Error
  join : Error → Error → Error

pub data Result {ℓ} (A : Type ℓ) : Type ℓ where
  ok : A → Result A
  err : Error → Result A

-- What `%v` prints of an error.
abbrev pub error_text : Error → String
error_text (api reason message) = message
error_text (wrap context e) = context <> ": " <> error_text e
error_text (join d e) = error_text d <> "\n" <> error_text e
