-- ===== src/Reconcile/Update.antt =====
-- updateRuntimeStatus of internal/controller/runtime_status.go.
pub mod Writes
use trussium_operator.Prelude.{◌<>◌, Bool, true, false, Option, none, some, if◌then◌else◌}
use trussium_operator.Kube.Errors.{Error, Result, ok, err, wrap}
use trussium_operator.Api.{TrussiumRuntime, TrussiumRuntimeStatus}
use trussium_operator.Status.Conditions.{preserve_runtime_condition_transition_times}
use trussium_operator.Events.{runtime_key}
use trussium_operator.Reconcile.Platform.{Platform}
use trussium_operator.Reconcile.Monad
use trussium_operator.Reconcile.Monad.{M, ◌>>=◌, pure, writing}
use trussium_operator.Reconcile.Load.{slashed}

-- What the source returns, with the runtime that it has changed in place.
pub record Updated : Type 0 where
  pub runtime : TrussiumRuntime
  pub status_updated : Bool
  pub error : Option Error

abbrev pub with_status : TrussiumRuntime → TrussiumRuntimeStatus → TrussiumRuntime
with_status r s = record r { status = s }

-- After the call: on success the runtime is what the server returned.
abbrev pub update_outcome : TrussiumRuntime → Result TrussiumRuntime → Updated
update_outcome sent (ok stored) = record { runtime = stored; status_updated = true; error = none }
update_outcome sent (err e) = record {
  runtime = sent;
  status_updated = false;
  error = some (wrap ("update TrussiumRuntime status " <> slashed (runtime_key sent)) e);
}

module _ (p : Platform) where
  abbrev pub normalized : TrussiumRuntime → TrussiumRuntimeStatus → TrussiumRuntimeStatus
  normalized r desired = preserve_runtime_condition_transition_times p.conditions r.status desired

  abbrev send_status : TrussiumRuntime → M p.Cluster Updated
  send_status r = do
    result ← writing Monad.put_status (p.update_status r)
    pure (update_outcome r result)

  unfoldable pub update_runtime_status :
      TrussiumRuntime → TrussiumRuntimeStatus → M p.Cluster Updated
  update_runtime_status r desired =
      if p.deep_equal r.status (normalized r desired)
      then pure (record { runtime = r; status_updated = false; error = none })
      else send_status (with_status r (normalized r desired))
