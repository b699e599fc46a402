-- ===== src/Manager/Start.antt =====
-- When cmd/main.go starts the manager.
use mathlib.Core.List.{append-nil, tail}
use live_pod_migration.Base.{
  ℕ, ◌≡◌, refl, sym, ap, ◌∙◌, Bool, true, false, Option, none, some, List, [], ◌∷◌, ◌++◌,
}
use live_pod_migration.Effect.{Outcome}
use live_pod_migration.Effect.Logged.{unlogged, all, partly}
use live_pod_migration.Manager.Host.{Flags, ManagerCalls}
use live_pod_migration.Manager.Servers.{manager_options}
use live_pod_migration.Manager.Trace.{
  Setup, added_client_go_types, added_types, parsed, watched, made_manager, completed, added,
  added_healthz, added_readyz, started, traced,
}
use live_pod_migration.Manager.Plan.Run.{main-Ends}
use live_pod_migration.Manager.Plan.{
  Watches, ready_plan, watcher_plan, controllers_plan, plan, Planned,
}
use live_pod_migration.Manager.{main}

abbrev is_start : {T : Type 0} → Setup T → Bool
is_start added_client_go_types = false
is_start (added_types _ _ _) = false
is_start (parsed _ _) = false
is_start (watched _ _ _) = false
is_start (made_manager _ _) = false
is_start (completed _ _) = false
is_start (added _ _) = false
is_start (added_healthz _ _) = false
is_start (added_readyz _ _) = false
is_start (started _) = true

abbrev Unstarted : {T : Type 0} → List (Setup T) → Type 0
Unstarted [] = Unit
Unstarted (e ∷ es) = (is_start e ≡ false) × Unstarted es

Unstarted-drop : {T : Type 0} (later es : List (Setup T)) → Unstarted (later ++ es) → Unstarted es
Unstarted-drop [] es h = h
Unstarted-drop (e ∷ later) es (_, h) = Unstarted-drop later es h

Unstarted-started :
    {T : Type 0} {C : Type 0} (mgr : ℕ) (es : List (Setup T)) → Unstarted (started mgr ∷ es) → C
Unstarted-started mgr es (h, _) = cc

module _ {S T : Type 0} (m : ManagerCalls S T) where
  -- all was set up, in the order of the plan
  abbrev pub Complete : List (Setup T) → Type 0
  Complete es =
      (f : Flags) × (webhook_watcher : Option ℕ) × (metrics_watcher : Option ℕ) × (mgr : ℕ)
      × Watches f.webhook_cert_path webhook_watcher
      × Watches f.metrics_cert_path metrics_watcher
      × (es ≡ plan m f webhook_watcher metrics_watcher mgr)

  plan-Unstarted :
      (f : Flags) (webhook_watcher metrics_watcher : Option ℕ) (mgr : ℕ)
      → Unstarted (
          watcher_plan m mgr webhook_watcher
          ++ watcher_plan m mgr metrics_watcher
          ++ controllers_plan m mgr
          ++ (made_manager (manager_options f webhook_watcher metrics_watcher) mgr
              ∷ ready_plan m f webhook_watcher metrics_watcher))
  plan-Unstarted f none none mgr = (refl, (refl, (refl, (refl, (refl, (refl, (refl, tt)))))))
  plan-Unstarted f none (some a) mgr =
      (refl, (refl, (refl, (refl, (refl, (refl, (refl, (refl, (refl, tt)))))))))
  plan-Unstarted f (some a) none mgr =
      (refl, (refl, (refl, (refl, (refl, (refl, (refl, (refl, (refl, tt)))))))))
  plan-Unstarted f (some a) (some b) mgr =
      (refl, (refl, (refl, (refl, (refl, (refl, (refl, (refl, (refl, (refl, (refl, tt)))))))))))

  Planned-Complete :
      (r : Outcome (Unit {0})) (es before : List (Setup T)) (k : ℕ)
      → Planned m r es
      → es ≡ started k ∷ before
      → Complete es
  Planned-Complete r es before k (f, a, b, mgr, has_a, has_b, all same) begins =
      (f, a, b, mgr, has_a, has_b, same ∙ append-nil _)
  Planned-Complete r es before k (f, a, b, mgr, has_a, has_b, partly [] earlier bad cut same)
        begins =
      (f, a, b, mgr, has_a, has_b, same ∙ append-nil earlier ∙ sym cut)
  Planned-Complete r es before k
        (f, a, b, mgr, has_a, has_b, partly (x ∷ later) earlier bad cut same) begins =
      let here =
        Unstarted-drop later earlier
          (rw (← ap tail cut) (refl, (refl, plan-Unstarted f a b mgr))) in
      Unstarted-started k before (rw (sym (append-nil earlier) ∙ sym same ∙ begins) at here)

-- The program starts the manager only when all else is set up, in this order: both groups of types are
-- in the scheme, the flags were parsed over their defaults, a watcher was made for each path of
-- certificates that the parsed flags give and for no other, of the certificate and the key that they
-- name there, the manager was made with the options of these flags and watchers, and the three
-- controllers, the watchers and the two checks were added to it.
pub main-StartsComplete :
    {S T : Type 0} (m : ManagerCalls S T) (s : S) (k : ℕ) (before : List (Setup T))
    → (main (traced m) (unlogged s)).1.log ≡ started k ∷ before
    → Complete m (started k ∷ before)
main-StartsComplete m s k before e =
    let r = main (traced m) (unlogged s) in
    rw (sym e) (Planned-Complete m r.0 r.1.log before k ((main-Ends m).at s) e)
