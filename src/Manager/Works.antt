-- ===== src/Manager/Works.antt =====
-- A start of cmd/main.go where nothing fails.
use mathlib.Core.List.{append-nil}
use live_pod_migration.Base.{ℕ, String, ◌≡◌, ◌∙◌, ◌==◌, Option, none, some, List}
use live_pod_migration.Effect.{Action, Outcome, ok, ◌>>◌}
use live_pod_migration.Effect.Logged.{unlogged, all, partly}
use live_pod_migration.Effect.Succeeds.{
  Succeeds, Succeeds-pure, Succeeds-if, Succeeds-attempt, Succeeds-logged, Succeeds-logged_ok,
  Succeeds-silent,
}
use live_pod_migration.Manager.Host.{Flags, ManagerOptions, Controller, ManagerCalls}
use live_pod_migration.Manager.Trace.{Setup, traced}
use live_pod_migration.Manager.Plan.Run.{main-Ends}
use live_pod_migration.Manager.Plan.{Planned}
use live_pod_migration.Manager.Start.{Complete}
use live_pod_migration.Manager.{
  or_exit, must, init, new_watcher, create_manager, add_controllers, add_watcher, add_checks,
  run_manager, configure, main,
}

-- each call succeeds, and the manager stops without an error
pub record Works {S T : Type 0} (m : ManagerCalls S T) : Type 0 where
  pub parse : (f : Flags) → Succeeds (m.parse f)
  pub add_client_go_types : Succeeds m.add_client_go_types
  pub add_types :
      (group version : String) (ks : List String) → Succeeds (m.add_types group version ks)
  pub new_cert_watcher : (cert key : String) → Succeeds (m.new_cert_watcher cert key)
  pub get_config : Succeeds m.get_config
  pub new_manager : (config : ℕ) (o : ManagerOptions) → Succeeds (m.new_manager config o)
  pub complete : (mgr : ℕ) (c : Controller T) → Succeeds (m.complete mgr c)
  pub add : (mgr watcher : ℕ) → Succeeds (m.add mgr watcher)
  pub add_healthz_check : (mgr : ℕ) (name : String) → Succeeds (m.add_healthz_check mgr name)
  pub add_readyz_check : (mgr : ℕ) (name : String) → Succeeds (m.add_readyz_check mgr name)
  pub start : (mgr : ℕ) → Succeeds (m.start mgr)

module _ {S A : Type 0} where
  or_exit-Succeeds :
      (text : String) (call : Action S A) → Succeeds call → Succeeds (or_exit text call)
  unfolding or_exit
  or_exit-Succeeds text call sc = Succeeds-attempt call _ _ sc (λ a. Succeeds-pure a)

  must-Succeeds : (call : Action S A) → Succeeds call → Succeeds (must call)
  unfolding must
  must-Succeeds call sc = Succeeds-attempt call _ _ sc (λ a. Succeeds-pure a)

  then-Succeeds :
      {B : Type 0} (m : Action S A) (n : Action S B) → Succeeds m → Succeeds n → Succeeds (m >> n)
  then-Succeeds m n sm sn = Succeeds-attempt m _ _ sm (λ _. sn)

module _ {S T : Type 0} (m : ManagerCalls S T) (works : Works m) where
  add_controllers-Succeeds : (mgr : ℕ) → Succeeds (add_controllers (traced m) mgr)
  unfolding add_controllers
  add_controllers-Succeeds mgr =
      then-Succeeds _ _ (or_exit-Succeeds _ _ (Succeeds-logged_ok _ (works.complete mgr _) _)) (
        then-Succeeds _ _ (or_exit-Succeeds _ _ (Succeeds-logged_ok _ (works.complete mgr _) _))
          (or_exit-Succeeds _ _ (Succeeds-logged_ok _ (works.complete mgr _) _)))

  add_watcher-Succeeds :
      (text : String) (mgr : ℕ) (watcher : Option ℕ)
      → Succeeds (add_watcher (traced m) text mgr watcher)
  unfolding add_watcher
  add_watcher-Succeeds text mgr none = Succeeds-pure tt
  add_watcher-Succeeds text mgr (some watcher) =
      or_exit-Succeeds text _ (Succeeds-logged_ok _ (works.add mgr watcher) _)

  add_checks-Succeeds : (mgr : ℕ) → Succeeds (add_checks (traced m) mgr)
  unfolding add_checks
  add_checks-Succeeds mgr =
      then-Succeeds _ _
        (or_exit-Succeeds _ _ (Succeeds-logged_ok _ (works.add_healthz_check mgr _) _))
        (or_exit-Succeeds _ _ (Succeeds-logged_ok _ (works.add_readyz_check mgr _) _))

  run_manager-Succeeds :
      (webhook_watcher metrics_watcher : Option ℕ) (mgr : ℕ)
      → Succeeds (run_manager (traced m) webhook_watcher metrics_watcher mgr)
  unfolding run_manager
  run_manager-Succeeds webhook_watcher metrics_watcher mgr =
      then-Succeeds _ _ (add_controllers-Succeeds mgr) (
        then-Succeeds _ _ (add_watcher-Succeeds _ mgr metrics_watcher) (
          then-Succeeds _ _ (add_watcher-Succeeds _ mgr webhook_watcher) (
            then-Succeeds _ _ (add_checks-Succeeds mgr)
              (or_exit-Succeeds _ _ (Succeeds-logged _ (works.start mgr) _)))))

  new_watcher-Succeeds :
      (text path name key : String) → Succeeds (new_watcher (traced m) text path name key)
  unfolding new_watcher
  new_watcher-Succeeds text path name key = Succeeds-if (path == "") _ _ (Succeeds-pure none) (
      Succeeds-attempt _ _ _
        (or_exit-Succeeds text _ (Succeeds-logged_ok _ (works.new_cert_watcher _ _) _))
        (λ watcher. Succeeds-pure (some watcher)))

  configure-Succeeds : (f : Flags) → Succeeds (configure (traced m) f)
  unfolding configure create_manager
  configure-Succeeds f =
      Succeeds-attempt _ _ _ (new_watcher-Succeeds _ f.webhook_cert_path _ _) λ webhook_watcher.
        Succeeds-attempt _ _ _ (new_watcher-Succeeds _ f.metrics_cert_path _ _) λ metrics_watcher.
          Succeeds-attempt _ _ _
            (Succeeds-attempt _ _ _ (Succeeds-silent _ works.get_config) (λ config.
              or_exit-Succeeds _ _ (Succeeds-logged_ok _ (works.new_manager config _) _)))
            (λ mgr. run_manager-Succeeds webhook_watcher metrics_watcher mgr)

  main-Succeeds : Succeeds (main (traced m))
  unfolding main init
  main-Succeeds =
      then-Succeeds _ _
        (then-Succeeds _ _ (must-Succeeds _ (Succeeds-logged_ok _ works.add_client_go_types _))
          (must-Succeeds _ (Succeeds-logged_ok _ (works.add_types _ _ _) _)))
        (Succeeds-attempt _ _ _ (Succeeds-logged_ok _ (works.parse _) _)
          (λ f. configure-Succeeds f))

  Planned-Complete_of_ok :
      (r : Outcome (Unit {0})) (es : List (Setup T))
      → (a : Unit {0}) × (r ≡ ok a)
      → Planned m r es
      → Complete m es
  Planned-Complete_of_ok r es (a, e) (f, x, y, mgr, has_x, has_y, all same) =
      (f, x, y, mgr, has_x, has_y, same ∙ append-nil _)
  Planned-Complete_of_ok r es (a, e)
        (f, x, y, mgr, has_x, has_y, partly later earlier bad cut same) =
      absurd (bad a e)

-- If no call fails, the program sets the manager up completely, starts it and ends without an error.
pub main-Completes :
    {S T : Type 0} (m : ManagerCalls S T) (s : S)
    → Works m
    → ((main (traced m) (unlogged s)).0 ≡ ok tt) × Complete m (main (traced m) (unlogged s)).1.log
main-Completes m s works =
    let r = main (traced m) (unlogged s) in
    let (a, e) = (main-Succeeds m works).at (unlogged s) in
    (e, Planned-Complete_of_ok m works r.0 r.1.log (a, e) ((main-Ends m).at s))
