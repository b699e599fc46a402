-- ===== src/Tests/Manager.antt =====
-- The manager's start, with calls that succeed and a certificate for the webhook server.
use mathlib.Core.List.{tail}
use live_pod_migration.Base.{◌<>◌, ◌≡◌, refl, ◌==◌, none, some, List, [], ◌∷◌}
use live_pod_migration.Effect.{ok, pure}
use live_pod_migration.Effect.Logged.{unlogged, logged, logged_ok, silent}
use live_pod_migration.Effect.Succeeds.{Succeeds-pure}
use live_pod_migration.Manager.Host.{Flags, TlsConfig, ManagerCalls}
use live_pod_migration.Manager.Servers.{manager_options}
use live_pod_migration.Manager.Trace.{Setup, started, traced}
use live_pod_migration.Manager.Plan.{plan}
use live_pod_migration.Manager.Start.{Complete, main-StartsComplete}
use live_pod_migration.Manager.Works.{Works, main-Completes}
use live_pod_migration.Manager.Tls.{applied, manager_options-serve}
use live_pod_migration.Manager.{
  default_flags, or_exit, must, init, new_watcher, create_manager, add_controllers, add_watcher,
  add_checks, run_manager, configure, main,
}
use live_pod_migration.Tests.Cluster.{Cluster, memory}

abbrev with_certificate : Flags → Flags
with_certificate f = record f { webhook_cert_path = "/certs" }

abbrev manager : ManagerCalls (Unit {0}) Cluster
manager = record {
  parse = λ f. pure (with_certificate f);
  add_client_go_types = pure tt;
  add_types = λ group version ks. pure tt;
  join = λ path name. path <> "/" <> name;
  new_cert_watcher = λ cert key. pure 3;
  get_config = pure 2;
  new_manager = λ config o. pure 1;
  client = λ mgr. memory;
  complete = λ mgr c. pure tt;
  add = λ mgr watcher. pure tt;
  add_healthz_check = λ mgr name. pure tt;
  add_readyz_check = λ mgr name. pure tt;
  start = λ mgr. pure tt;
}

manager-Works : Works manager
manager-Works = record {
  parse = λ f. Succeeds-pure _;
  add_client_go_types = Succeeds-pure tt;
  add_types = λ group version ks. Succeeds-pure tt;
  new_cert_watcher = λ cert key. Succeeds-pure 3;
  get_config = Succeeds-pure 2;
  new_manager = λ config o. Succeeds-pure 1;
  complete = λ mgr c. Succeeds-pure tt;
  add = λ mgr watcher. Succeeds-pure tt;
  add_healthz_check = λ mgr name. Succeeds-pure tt;
  add_readyz_check = λ mgr name. Succeeds-pure tt;
  start = λ mgr. Succeeds-pure tt;
}

abbrev before_start : List (Setup Cluster)
before_start = tail (plan manager (with_certificate default_flags) (some 3) none 1)

main-StartsComplete_example : Complete manager (started 1 ∷ before_start)
unfolding main init configure new_watcher create_manager run_manager add_controllers add_watcher
    add_checks or_exit must logged logged_ok silent ◌==◌
main-StartsComplete_example = main-StartsComplete manager tt 1 before_start refl

main-Completes_example :
    ((main (traced manager) (unlogged tt)).0 ≡ ok tt)
    × Complete manager (main (traced manager) (unlogged tt)).1.log
main-Completes_example = main-Completes manager tt manager-Works

abbrev plain : TlsConfig
plain = record { next_protos = "h2" ∷ "http/1.1" ∷ []; get_certificate = none }

manager_options-serve_example :
    (applied (manager_options default_flags (some 3) none).metrics.tls_opts plain
      ≡ record { next_protos = "http/1.1" ∷ []; get_certificate = none })
    × (applied (manager_options default_flags (some 3) none).webhook_tls_opts plain
        ≡ record { next_protos = "http/1.1" ∷ []; get_certificate = some 3 })
manager_options-serve_example = manager_options-serve default_flags (some 3) none plain
