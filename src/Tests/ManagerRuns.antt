-- ===== src/Tests/ManagerRuns.antt =====
-- The start of the manager and the wiring of the controller at concrete inputs.
use trussium_operator.Prelude.{ℕ, ◌≡◌, [], ◌∷◌}
use trussium_operator.Kube.Errors.{ok, err, api}
use trussium_operator.Manager.{
  default_flags, webhook_options, metrics_options, add_readyz_check, Host, main,
}
use trussium_operator.Manager.Options.{configured, http2_off}
use trussium_operator.Manager.Startup.{Sequence, startup, main-Sequence}

-- A host on which the second check cannot be added. The scheme is a number.
abbrev crowded : Host ℕ
crowded made (add_readyz_check name) = err (api "AlreadyExists" "the check is there")
crowded made call = ok tt

main-Sequence_example :
    Sequence crowded [] (startup crowded 1 default_flags) (main crowded 1 default_flags)
main-Sequence_example = main-Sequence crowded 1 default_flags

http2_off_example :
    ((configured
        (webhook_options default_flags).tls
        (record { next_protos = "h2" ∷ [] })).next_protos
      ≡ "http/1.1" ∷ [])
    × ((configured
          (metrics_options default_flags).tls
          (record { next_protos = "h2" ∷ [] })).next_protos
        ≡ "http/1.1" ∷ [])
http2_off_example = http2_off default_flags (record { next_protos = "h2" ∷ [] })
