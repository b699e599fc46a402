-- ===== src/Manager/Plan.antt =====
-- What cmd/main.go sets up, in which order.
pub mod Run
use mathlib.Core.List.{append-nil}
use live_pod_migration.Base.{
  ℕ, String, ◌≡◌, refl, sym, ap, ◌∙◌, ◌≢◌, ◌<>◌, ◌==◌, ==_iff, true, Option, none, some, List, [],
  ◌∷◌, ◌++◌,
}
use live_pod_migration.Effect.{Action, Outcome, ok, err, panic, wrap, pure, raise, resume, ◌>>=◌}
use live_pod_migration.Effect.Logged.{
  WithLog, unlogged, Logs-widen, logged_ok, Appends-then, Appends-reworded, Logs, all, partly,
  Appends, Appends-logged_ok, Appends-logged, Appends-pure, Appends-attempt-crash,
}
use live_pod_migration.Effect.Ends.{
  Any, nothing, Makes, Makes-logged_ok, Makes-silent, Makes-if, Makes-attempt, Makes-reworded, Ends,
  Ends-bind,
}
use live_pod_migration.Manager.Host.{Flags, ManagerCalls}
use live_pod_migration.Manager.Scheme.{group, version, registered_kinds}
use live_pod_migration.Manager.Servers.{manager_options}
use live_pod_migration.Manager.Controllers.{
  migration_controller, pod_checkpoint_controller, container_checkpoint_controller,
}
use live_pod_migration.Manager.Trace.{
  Setup, added_client_go_types, added_types, parsed, watched, made_manager, completed, added,
  added_healthz, added_readyz, started, traced,
}
use live_pod_migration.Manager.{
  default_flags, init, new_watcher, create_manager, add_controllers, add_watcher, add_checks,
  run_manager, configure, main, or_exit, must,
}

-- a watcher is there exactly if a path was given
abbrev pub Watches : String → Option ℕ → Type 0
Watches path none = path ≡ ""
Watches path (some watcher) = path ≢ ""

module _ {S T : Type 0} (m : ManagerCalls S T) where
  abbrev pub types_plan : List (Setup T)
  types_plan = added_types group version registered_kinds ∷ added_client_go_types ∷ []

  -- the watcher of a certificate and its key, if there is one
  abbrev pub watch_plan : String → String → String → Option ℕ → List (Setup T)
  watch_plan path name key none = []
  watch_plan path name key (some watcher) =
      watched (m.join path name) (m.join path key) watcher ∷ []

  abbrev pub flags_plan : Flags → List (Setup T)
  flags_plan f = parsed default_flags f ∷ types_plan

  -- up to the manager
  abbrev pub ready_plan : Flags → Option ℕ → Option ℕ → List (Setup T)
  ready_plan f webhook_watcher metrics_watcher =
      watch_plan f.metrics_cert_path f.metrics_cert_name f.metrics_cert_key metrics_watcher
      ++ (watch_plan f.webhook_cert_path f.webhook_cert_name f.webhook_cert_key webhook_watcher
          ++ flags_plan f)

  abbrev pub watcher_plan : ℕ → Option ℕ → List (Setup T)
  watcher_plan mgr none = []
  watcher_plan mgr (some watcher) = added mgr watcher ∷ []

  abbrev pub controllers_plan : ℕ → List (Setup T)
  controllers_plan mgr =
      completed mgr (container_checkpoint_controller (m.client mgr))
      ∷ completed mgr (pod_checkpoint_controller (m.client mgr))
      ∷ completed mgr (migration_controller (m.client mgr))
      ∷ []

  -- the newest first: the manager is started, after the checks, the watchers and the controllers
  abbrev pub run_plan : Option ℕ → Option ℕ → ℕ → List (Setup T)
  run_plan webhook_watcher metrics_watcher mgr =
      started mgr
      ∷ added_readyz mgr "readyz"
      ∷ added_healthz mgr "healthz"
      ∷ (watcher_plan mgr webhook_watcher
          ++ watcher_plan mgr metrics_watcher
          ++ controllers_plan mgr)

  abbrev pub plan : Flags → Option ℕ → Option ℕ → ℕ → List (Setup T)
  plan f webhook_watcher metrics_watcher mgr =
      run_plan webhook_watcher metrics_watcher mgr
      ++ (made_manager (manager_options f webhook_watcher metrics_watcher) mgr
          ∷ ready_plan f webhook_watcher metrics_watcher)

  -- the log is an initial part of such a plan, and all of it if the program came to its end
  abbrev pub Planned : Outcome (Unit {0}) → List (Setup T) → Type 0
  Planned r es =
      (f : Flags) × (webhook_watcher : Option ℕ) × (metrics_watcher : Option ℕ) × (mgr : ℕ)
      × Watches f.webhook_cert_path webhook_watcher
      × Watches f.metrics_cert_path metrics_watcher
      × Logs (plan f webhook_watcher metrics_watcher mgr) [] r es
