-- ===== src/Tests/SuccessRuns.antt =====
-- The theorems of a successful pass against the concrete server.
use trussium_operator.Prelude.{◌≡◌, refl, Option, true, none, some, [], ◌++◌, inl, inr}
use trussium_operator.Prelude.Sort.{sort, sort_insert}
use trussium_operator.Status.References.{referenced_secret_names, unique_names, add_references}
use trussium_operator.Reconcile.Load.{check_secrets, validate_secret_references}
use trussium_operator.Reconcile.Resources.Order.{plan}
use trussium_operator.Reconcile.Update.Writes.{AtMostStatus}
use trussium_operator.Reconcile.Pass.{reconcile_runtime}
use trussium_operator.Reconcile.Pass.Complete.{AllOf, pass-AllOf}
use trussium_operator.Reconcile.Pass.Willing.{IsAnswered, IsWilling}
use trussium_operator.Reconcile.Pass.Success.{pass-succeeds}
use trussium_operator.Tests.Fixtures.{demo, not_found}
use trussium_operator.Tests.Server.{server, calm, found, base_deployment, is_not_found}

calm_valid : (validate_secret_references server demo calm).0.valid ≡ true
unfolding validate_secret_references check_secrets referenced_secret_names unique_names
    add_references sort sort_insert
calm_valid = refl

pass-AllOf_example :
    AllOf
      (plan demo)
      []
      (reconcile_runtime server demo calm).0
      (reconcile_runtime server demo calm).1.writes
pass-AllOf_example = pass-AllOf server demo calm refl calm_valid

pub found-IsAnswered : {A : Type 0} (x : Option A) → IsAnswered is_not_found (found x)
found-IsAnswered none = inr (not_found, refl, refl)
found-IsAnswered (some a) = inl (a, refl)

pub server-IsWilling : IsWilling server
server-IsWilling = record {
  owner_set = λ r m. (_, refl);
  deployment_read = λ k c. found-IsAnswered c.deployment;
  service_read = λ k c. inr (not_found, refl, refl);
  status_stored = λ r c. (r, refl);
  config_map_stored = λ k f h c. refl;
  service_account_stored = λ k f h c. refl;
  service_stored = λ k f h c. refl;
  deployment_stored = λ k f h c. let (d, e) = h (base_deployment c.deployment) in rw e refl;
  budget_stored = λ k f h c. refl;
  network_policy_stored = λ k f h c. refl;
  autoscaler_stored = λ k f h c. refl;
  network_policy_deleted = λ k c. inr (not_found, refl, refl);
  autoscaler_deleted = λ k c. inr (not_found, refl, refl);
}

pass-succeeds_example :
    ((reconcile_runtime server demo calm).0 ≡ none)
    × AtMostStatus ([] ++ plan demo) (reconcile_runtime server demo calm).1.writes
pass-succeeds_example = pass-succeeds server server-IsWilling demo calm refl calm_valid
