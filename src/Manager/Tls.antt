-- ===== src/Manager/Tls.antt =====
-- The TLS configurations that the options of the servers lead to.
use live_pod_migration.Base.{
  ℕ, ◌≡◌, refl, Bool, true, false, Option, none, some, List, [], ◌∷◌, if◌then◌else◌,
}
use live_pod_migration.Manager.Host.{Flags, TlsConfig, TlsOption}
use live_pod_migration.Manager.Servers.{
  disable_http2, tls_opts, with_watcher, metrics_options, manager_options,
}

-- the options applied in turn
abbrev pub applied : List TlsOption → TlsConfig → TlsConfig
applied [] c = c
applied (o ∷ os) c = applied os (o c)

abbrev pub certificate_or : Option ℕ → Option ℕ → Option ℕ
certificate_or none before = before
certificate_or (some watcher) before = some watcher

-- what a server ends with: HTTP/2 only if the flag is set, and the certificate of its own watcher
abbrev pub served_config : Bool → Option ℕ → TlsConfig → TlsConfig
served_config http2 watcher c = record {
  next_protos = if http2 then c.next_protos else "http/1.1" ∷ [];
  get_certificate = certificate_or watcher c.get_certificate;
}

applied-with_watcher :
    (http2 : Bool) (watcher : Option ℕ) (c : TlsConfig)
    → applied (with_watcher (if http2 then [] else disable_http2 ∷ []) watcher) c
      ≡ served_config http2 watcher c
unfolding with_watcher
applied-with_watcher true none c = refl
applied-with_watcher true (some x) c = refl
applied-with_watcher false none c = refl
applied-with_watcher false (some x) c = refl

-- Whatever configuration the metrics server and the webhook server start from, the options take it to one
-- that offers HTTP/2 only if the flag is set and HTTP/1.1 otherwise, and that has the certificate of the
-- server's own watcher, never of the other's, where it has one.
pub manager_options-serve :
    (f : Flags) (webhook_watcher metrics_watcher : Option ℕ) (c : TlsConfig)
    → (applied (manager_options f webhook_watcher metrics_watcher).metrics.tls_opts c
        ≡ served_config f.enable_http2 metrics_watcher c)
      × (applied (manager_options f webhook_watcher metrics_watcher).webhook_tls_opts c
          ≡ served_config f.enable_http2 webhook_watcher c)
unfolding manager_options metrics_options tls_opts
manager_options-serve f webhook_watcher metrics_watcher c = (
  applied-with_watcher f.enable_http2 metrics_watcher c,
  applied-with_watcher f.enable_http2 webhook_watcher c,
)
