-- ===== src/Manager/Servers.antt =====
-- The options of the metrics and webhook servers in cmd/main.go.
use live_pod_migration.Base.{ℕ, Option, none, some, List, [], ◌∷◌, ◌++◌, if◌then◌else◌}
use live_pod_migration.Manager.Host.{
  Flags, TlsOption, MetricsOptions, ManagerOptions, with_authentication_and_authorization,
}

abbrev pub disable_http2 : TlsOption
disable_http2 c = record c { next_protos = "http/1.1" ∷ [] }

-- `config.GetCertificate = watcher.GetCertificate`
abbrev pub get_certificate_of : ℕ → TlsOption
get_certificate_of watcher c = record c { get_certificate = some watcher }

-- `tlsOpts`
unfoldable pub tls_opts : Flags → List TlsOption
tls_opts f = if f.enable_http2 then [] else disable_http2 ∷ []

-- appended where there is a watcher
unfoldable pub with_watcher : List TlsOption → Option ℕ → List TlsOption
with_watcher opts none = opts
with_watcher opts (some watcher) = opts ++ (get_certificate_of watcher ∷ [])

unfoldable pub metrics_options : Flags → Option ℕ → MetricsOptions
unfolding tls_opts with_watcher
metrics_options f watcher = record {
  bind_address = f.metrics_addr;
  secure_serving = f.secure_metrics;
  tls_opts = with_watcher (tls_opts f) watcher;
  filter_provider = if f.secure_metrics then some with_authentication_and_authorization else none;
}

-- with the watchers of the webhook's and the metrics' certificates
unfoldable pub manager_options : Flags → Option ℕ → Option ℕ → ManagerOptions
unfolding tls_opts with_watcher metrics_options
manager_options f webhook_watcher metrics_watcher = record {
  metrics = metrics_options f metrics_watcher;
  webhook_tls_opts = with_watcher (tls_opts f) webhook_watcher;
  health_probe_bind_address = f.probe_addr;
  leader_election = f.enable_leader_election;
  leader_election_id = "ecaf1259.my.domain";
}
