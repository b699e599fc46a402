-- ===== src/Manager/Host.antt =====
-- What cmd/main.go calls and does not implement: flag parsing, the scheme, the certificate watchers and
-- the manager of controller-runtime, as operations on an unknown state `S`. Watchers, configurations and
-- managers are known by a number.
use live_pod_migration.Base.{ℕ, String, Bool, Option, List}
use live_pod_migration.Effect.{Action}
use live_pod_migration.Api.Core.{ObjectKey}
use live_pod_migration.World.{World}
use live_pod_migration.Reconcile.{ReconcileResult}

-- the variables of the flags
pub record Flags : Type 0 where
  pub metrics_addr : String
  pub probe_addr : String
  pub enable_leader_election : Bool
  pub secure_metrics : Bool
  pub webhook_cert_path : String
  pub webhook_cert_name : String
  pub webhook_cert_key : String
  pub metrics_cert_path : String
  pub metrics_cert_name : String
  pub metrics_cert_key : String
  pub enable_http2 : Bool

-- `tls.Config`: the fields that the options set; `GetCertificate` is that of a watcher
pub record TlsConfig : Type 0 where
  pub next_protos : List String
  pub get_certificate : Option ℕ

-- `func(*tls.Config)`
abbrev pub TlsOption : Type 0
TlsOption = TlsConfig → TlsConfig

-- `filters.WithAuthenticationAndAuthorization`
pub data FilterProvider : Type 0 where
  with_authentication_and_authorization : FilterProvider

-- `metricsserver.Options`
pub record MetricsOptions : Type 0 where
  pub bind_address : String
  pub secure_serving : Bool
  pub tls_opts : List TlsOption
  pub filter_provider : Option FilterProvider

-- `ctrl.Options`; the webhook server is known by its `TLSOpts`
pub record ManagerOptions : Type 0 where
  pub metrics : MetricsOptions
  pub webhook_tls_opts : List TlsOption
  pub health_probe_bind_address : String
  pub leader_election : Bool
  pub leader_election_id : String

-- what `ctrl.NewControllerManagedBy(mgr).For(…).Named(…).Complete(r)` is given: the kind, the name and
-- the reconciler, whose calls go through a client to a cluster with the states `T`
pub record Controller (T : Type 0) : Type 0 where
  pub for_kind : String
  pub named : String
  pub reconciler : ObjectKey → Action T ReconcileResult

pub record ManagerCalls (S T : Type 0) : Type 0 where
  -- `flag.Parse()`, where the variables hold their defaults
  pub parse : Flags → Action S Flags
  -- `clientgoscheme.AddToScheme(scheme)`
  pub add_client_go_types : Action S (Unit {0})
  -- `SchemeBuilder.AddToScheme` of the group, the version and the kinds that were registered with it
  pub add_types : String → String → List String → Action S (Unit {0})
  -- `filepath.Join`
  pub join : String → String → String
  -- `certwatcher.New`
  pub new_cert_watcher : String → String → Action S ℕ
  -- `ctrl.GetConfigOrDie()`
  pub get_config : Action S ℕ
  pub new_manager : ℕ → ManagerOptions → Action S ℕ
  -- what a reconciler calls, with `mgr.GetClient()`
  pub client : ℕ → World T
  pub complete : ℕ → Controller T → Action S (Unit {0})
  -- `mgr.Add` of a watcher
  pub add : ℕ → ℕ → Action S (Unit {0})
  -- with `healthz.Ping`
  pub add_healthz_check : ℕ → String → Action S (Unit {0})
  pub add_readyz_check : ℕ → String → Action S (Unit {0})
  -- until the signal handler ends it
  pub start : ℕ → Action S (Unit {0})
