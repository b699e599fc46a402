-- ===== src/Manager.antt =====
-- cmd/main.go: the manager that runs the reconcilers. `err` is an exit with status 1 after the error
-- was logged; the log output itself is left out.
pub mod Host
pub mod Scheme
pub mod Servers
pub mod Controllers
pub mod Trace
pub mod Plan
pub mod Tls
pub mod Start
pub mod Works
use live_pod_migration.Base.{
  ℕ, String, ◌<>◌, Bool, true, false, Option, none, some, List, [], ◌∷◌, ◌==◌, if◌then◌else◌,
}
use live_pod_migration.Effect.{Action, Error, wrap, pure, raise, crash, attempt, ◌>>=◌, ◌>>◌, maybe}
use Scheme.{group, version, registered_kinds}
use Host.{Flags, ManagerCalls}
use Servers.{manager_options}
use Controllers.{migration_controller, pod_checkpoint_controller, container_checkpoint_controller}

-- the defaults
abbrev pub default_flags : Flags
default_flags = record {
  metrics_addr = "0";
  probe_addr = ":8081";
  enable_leader_election = false;
  secure_metrics = true;
  webhook_cert_path = "";
  webhook_cert_name = "tls.crt";
  webhook_cert_key = "tls.key";
  metrics_cert_path = "";
  metrics_cert_name = "tls.crt";
  metrics_cert_key = "tls.key";
  enable_http2 = false;
}

-- `if err != nil { setupLog.Error(err, …); os.Exit(1) }`
unfoldable pub or_exit : {S A : Type 0} → String → Action S A → Action S A
or_exit text call = attempt call (λ e. raise (wrap (text <> ": ") e)) pure

-- `utilruntime.Must`
unfoldable pub must : {S A : Type 0} → Action S A → Action S A
must call = attempt call (λ e. crash) pure

module _ {S T : Type 0} (m : ManagerCalls S T) where
  unfoldable pub init : Action S (Unit {0})
  init = do must m.add_client_go_types; must (m.add_types group version registered_kinds)

  -- a watcher of the files of a path, if there is one
  unfoldable pub new_watcher : String → String → String → String → Action S (Option ℕ)
  new_watcher text path name key =
      if path == ""
      then pure none
      else or_exit text (m.new_cert_watcher (m.join path name) (m.join path key)) >>= λ watcher.
          pure (some watcher)

  unfoldable pub create_manager : Flags → Option ℕ → Option ℕ → Action S ℕ
  unfolding manager_options
  create_manager f webhook_watcher metrics_watcher = do
    config ← m.get_config
    or_exit "unable to start manager"
        (m.new_manager config (manager_options f webhook_watcher metrics_watcher))

  unfoldable pub add_controllers : ℕ → Action S (Unit {0})
  add_controllers mgr = do
    or_exit "unable to create controller PodMigration"
        (m.complete mgr (migration_controller (m.client mgr)))
    or_exit "unable to create controller PodCheckpoint"
        (m.complete mgr (pod_checkpoint_controller (m.client mgr)))
    or_exit "unable to create controller ContainerCheckpoint"
        (m.complete mgr (container_checkpoint_controller (m.client mgr)))

  unfoldable pub add_watcher : String → ℕ → Option ℕ → Action S (Unit {0})
  add_watcher text mgr none = pure tt
  add_watcher text mgr (some watcher) = or_exit text (m.add mgr watcher)

  unfoldable pub add_checks : ℕ → Action S (Unit {0})
  add_checks mgr = do
    or_exit "unable to set up health check" (m.add_healthz_check mgr "healthz")
    or_exit "unable to set up ready check" (m.add_readyz_check mgr "readyz")

  -- what follows the creation of the manager
  unfoldable pub run_manager : Option ℕ → Option ℕ → ℕ → Action S (Unit {0})
  unfolding add_controllers add_watcher add_checks
  run_manager webhook_watcher metrics_watcher mgr = do
    add_controllers mgr
    add_watcher "unable to add metrics certificate watcher to manager" mgr metrics_watcher
    add_watcher "unable to add webhook certificate watcher to manager" mgr webhook_watcher
    add_checks mgr
    or_exit "problem running manager" (m.start mgr)

  -- with the flags parsed
  unfoldable pub configure : Flags → Action S (Unit {0})
  unfolding new_watcher create_manager run_manager
  configure f = do
    webhook_watcher ←
        new_watcher "Failed to initialize webhook certificate watcher" f.webhook_cert_path
          f.webhook_cert_name f.webhook_cert_key
    metrics_watcher ←
        new_watcher "to initialize metrics certificate watcher" f.metrics_cert_path
          f.metrics_cert_name f.metrics_cert_key
    mgr ← create_manager f webhook_watcher metrics_watcher
    run_manager webhook_watcher metrics_watcher mgr

  -- the program, from the initialization of the package on
  unfoldable pub main : Action S (Unit {0})
  unfolding init configure
  main = do init; f ← m.parse default_flags; configure f
