-- ===== src/Manager/Options.antt =====
-- What the flags make of the servers' options.
use trussium_operator.Prelude.{◌≡◌, List, [], ◌∷◌, arith, if◌then◌else◌}
use trussium_operator.Manager.{Flags, TlsConfig, TlsOpt, tls_opts, webhook_options, metrics_options}

-- A server applies its options to its configuration, the first one first.
abbrev pub configured : List TlsOpt → TlsConfig → TlsConfig
configured [] c = c
configured (opt ∷ rest) c = configured rest (opt c)

-- HTTP/2 is offered by neither server unless the flag is set, whatever the configuration says before;
-- with the flag both configurations are left as they are.
pub http2_off :
    (f : Flags) (c : TlsConfig)
    → let protocols = if f.enable_http2 then c.next_protos else "http/1.1" ∷ [] in
      ((configured (webhook_options f).tls c).next_protos ≡ protocols)
      × ((configured (metrics_options f).tls c).next_protos ≡ protocols)
unfolding webhook_options metrics_options tls_opts
http2_off f c = (ground arith, ground arith)
