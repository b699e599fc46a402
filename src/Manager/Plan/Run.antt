-- ===== src/Manager/Plan/Run.antt =====
-- The calls of a run of cmd/main.go are an initial part of the plan.
use mathlib.Core.List.{append-nil, append_assoc}
use live_pod_migration.Base.{
  ℕ, String, ◌≡◌, refl, sym, ap, ◌∙◌, ◌≢◌, ◌<>◌, ◌==◌, ==_iff, true, Bool-cases, inl, inr, Option,
  none, some, List, [], ◌∷◌, ◌++◌,
}
use live_pod_migration.Effect.{Action, Outcome, ok, err, panic, wrap, pure, raise, resume, ◌>>=◌}
use live_pod_migration.Effect.Logged.{
  WithLog, unlogged, Logs-widen, logged_ok, Appends-then, Appends-reworded, Logs, all, partly,
  Appends, Appends-logged_ok, Appends-logged, Appends-pure, Appends-attempt-crash,
}
use live_pod_migration.Effect.Ends.{
  Any, Makes, Makes-logged_ok, Makes-silent, Makes-just, Makes-map, Makes-if, Makes-attempt,
  Makes-reworded, Ends, Ends-bind,
}
use live_pod_migration.Manager.Host.{Flags, ManagerCalls}
use live_pod_migration.Manager.Scheme.{group, version, registered_kinds}
use live_pod_migration.Manager.Servers.{manager_options}
use live_pod_migration.Manager.Controllers.{
  migration_controller, pod_checkpoint_controller, container_checkpoint_controller,
}
use live_pod_migration.Manager.Trace.{
  Setup, added_client_go_types, added_types, parsed, made_manager, completed, added, added_healthz,
  added_readyz, started, traced,
}
use live_pod_migration.Manager.{
  default_flags, init, new_watcher, create_manager, add_controllers, add_watcher, add_checks,
  run_manager, configure, main, or_exit, must,
}
use live_pod_migration.Manager.Plan.{
  Watches, types_plan, flags_plan, ready_plan, watch_plan, watcher_plan, controllers_plan, run_plan,
  Planned,
}

watcher_for : (path : String) → (watcher : Option ℕ) × Watches path watcher
watcher_for path = elim (Bool-cases (path == "")) [
  | inl e ↦ (none, (==_iff path "").0 e)
  | inr e ↦ (some 0, λ same. let yes : (path == "") ≡ true = (==_iff path "").1 same in cc)
]

or_exit-Appends :
    {E S A : Type 0} (text : String) (new : List E) (call : Action (WithLog E S) A)
    → Appends new call
    → Appends new (or_exit text call)
unfolding or_exit
or_exit-Appends text new call ac = Appends-reworded new call (λ x. wrap (text <> ": ") x) ac

call-Exits :
    {E S A : Type 0} (text : String) (e : E) (call : Action S A)
    → Appends (e ∷ []) (or_exit text (logged_ok (λ _. e) call))
call-Exits text e call =
    or_exit-Appends text (e ∷ []) _ (Appends-logged_ok (λ _. e) e call (λ _. refl))

module _ {S T : Type 0} (m : ManagerCalls S T) where
  add_controllers-Appends :
      (mgr : ℕ) → Appends (controllers_plan m mgr) (add_controllers (traced m) mgr)
  unfolding add_controllers
  add_controllers-Appends mgr =
      let w = m.client mgr in
      Appends-then _ _ _ _ (call-Exits _ (completed mgr (migration_controller w)) _) (
        Appends-then _ _ _ _ (call-Exits _ (completed mgr (pod_checkpoint_controller w)) _)
          (call-Exits _ (completed mgr (container_checkpoint_controller w)) _))

  add_watcher-Appends :
      (text : String) (mgr : ℕ) (watcher : Option ℕ)
      → Appends (watcher_plan m mgr watcher) (add_watcher (traced m) text mgr watcher)
  unfolding add_watcher
  add_watcher-Appends text mgr none = Appends-pure tt
  add_watcher-Appends text mgr (some watcher) =
      call-Exits text (added mgr watcher) (m.add mgr watcher)

  add_checks-Appends :
      (mgr : ℕ)
      → Appends
          (added_readyz mgr "readyz" ∷ added_healthz mgr "healthz" ∷ [])
          (add_checks (traced m) mgr)
  unfolding add_checks
  add_checks-Appends mgr =
      Appends-then _ _ _ _ (call-Exits _ (added_healthz mgr "healthz") _)
        (call-Exits _ (added_readyz mgr "readyz") _)

  run_manager-Appends :
      (webhook_watcher metrics_watcher : Option ℕ) (mgr : ℕ)
      → Appends
          (run_plan m webhook_watcher metrics_watcher mgr)
          (run_manager (traced m) webhook_watcher metrics_watcher mgr)
  unfolding run_manager
  run_manager-Appends webhook_watcher metrics_watcher mgr =
      Appends-then _ _ _ _ (add_controllers-Appends mgr) (
        Appends-then _ _ _ _ (add_watcher-Appends _ mgr metrics_watcher) (
          Appends-then _ _ _ _ (add_watcher-Appends _ mgr webhook_watcher) (
            Appends-then _ (started mgr ∷ []) _ _ (add_checks-Appends mgr)
              (or_exit-Appends _ _ _ (Appends-logged (started mgr) (m.start mgr))))))

  init-Appends : Appends (types_plan m) (init (traced m))
  unfolding init must
  init-Appends =
      Appends-then (added_client_go_types ∷ []) (added_types group version registered_kinds ∷ []) _
        _
        (Appends-attempt-crash (added_client_go_types ∷ []) [] _ pure
          (Appends-logged_ok _ added_client_go_types m.add_client_go_types (λ _. refl))
          (λ a. Appends-pure a))
        (Appends-attempt-crash (added_types group version registered_kinds ∷ []) [] _ pure
          (Appends-logged_ok _ (added_types group version registered_kinds)
            (m.add_types group version registered_kinds) (λ _. refl))
          (λ a. Appends-pure a))

  new_watcher-Makes :
      (text path name key : String)
      → Makes
          (Watches path)
          (watch_plan m path name key)
          (new_watcher (traced m) text path name key)
  unfolding new_watcher or_exit
  new_watcher-Makes text path name key =
      let made : ℕ → List (Setup T) = λ watcher. watch_plan m path name key (some watcher) in
      Makes-if (Watches path) (watch_plan m path name key) (path == "") _ _
        (λ e.
          Makes-just (Watches path) (watch_plan m path name key) none ((==_iff path "").0 e) refl)
        λ e.
          Makes-map Any (Watches path) some (watch_plan m path name key) _
            (Makes-reworded Any _ made _ (Makes-logged_ok _ _))
            (λ watcher _ same. let yes : (path == "") ≡ true = (==_iff path "").1 same in cc)

  create_manager-Makes :
      (f : Flags) (webhook_watcher metrics_watcher : Option ℕ)
      → Makes Any
          (λ mgr. made_manager (manager_options f webhook_watcher metrics_watcher) mgr ∷ [])
          (create_manager (traced m) f webhook_watcher metrics_watcher)
  unfolding create_manager or_exit
  create_manager-Makes f webhook_watcher metrics_watcher =
      Makes-attempt Any (λ x. x) Any _ _ _ (Makes-silent m.get_config)
        (λ config _. Makes-reworded Any _ _ _ (Makes-logged_ok _ _))

  -- an end before there is a manager
  Planned-partly :
      (f : Flags) (webhook_watcher metrics_watcher : Option ℕ)
      → Watches f.webhook_cert_path webhook_watcher
      → Watches f.metrics_cert_path metrics_watcher
      → (r : Outcome (Unit {0})) (later es : List (Setup T)) → ((x : Unit {0}) → r ≢ ok x)
      → ready_plan m f webhook_watcher metrics_watcher ≡ later ++ es
      → Planned m r es
  Planned-partly f webhook_watcher metrics_watcher has_webhook has_metrics r later es bad cut =
      let made = made_manager (manager_options f webhook_watcher metrics_watcher) 0 in
      let run = run_plan m webhook_watcher metrics_watcher 0 in
      (
        f,
        webhook_watcher,
        metrics_watcher,
        0,
        has_webhook,
        has_metrics,
        partly (run ++ (made ∷ later)) es bad
            (ap (λ l. run ++ (made ∷ l)) cut ∙ sym (append_assoc run (made ∷ later) es))
            (sym (append-nil es)),
      )

  -- an end before the flags are parsed
  Planned-early :
      (r : Outcome (Unit {0})) (later es : List (Setup T))
      → ((x : Unit {0}) → r ≢ ok x)
      → types_plan m ≡ later ++ es
      → Planned m r es
  Planned-early r later es bad cut =
      let read : Setup T = parsed default_flags default_flags in
      Planned-partly default_flags none none refl refl r (read ∷ later) es bad
        (ap (λ l. read ∷ l) cut)

  Planned-cut :
      (r : Outcome (Unit {0})) (later earlier es : List (Setup T))
      → ((x : Unit {0}) → r ≢ ok x)
      → (types_plan m) ≡ later ++ earlier
      → es ≡ earlier ++ []
      → Planned m r es
  Planned-cut r later earlier es bad cut same =
      rw (same ∙ append-nil earlier) (Planned-early r later earlier bad cut)

  configure-Ends : (f : Flags) → Ends (flags_plan m f) (Planned m) (configure (traced m) f)
  unfolding configure
  configure-Ends f =
      let (webhook, has_webhook) = watcher_for f.webhook_cert_path in
      let (metrics, has_metrics) = watcher_for f.metrics_cert_path in
      let webhook_plan = watch_plan m f.webhook_cert_path f.webhook_cert_name f.webhook_cert_key in
      let metrics_plan = watch_plan m f.metrics_cert_path f.metrics_cert_name f.metrics_cert_key in
      let start = flags_plan m f in
      Ends-bind (Watches f.webhook_cert_path) webhook_plan start (Planned m) _ _
        (new_watcher-Makes _ f.webhook_cert_path _ _)
        (λ x bad.
          Planned-partly f webhook metrics has_webhook has_metrics x
            (metrics_plan metrics ++ webhook_plan webhook) start bad
            (sym (append_assoc (metrics_plan metrics) (webhook_plan webhook) start)))
        λ a has_a.
          Ends-bind (Watches f.metrics_cert_path) metrics_plan (webhook_plan a ++ start) (Planned m)
            _ _ (new_watcher-Makes _ f.metrics_cert_path _ _)
            (λ x bad.
              Planned-partly f a metrics has_a has_metrics x (metrics_plan metrics)
                (webhook_plan a ++ start) bad refl)
            λ b has_b.
              Ends-bind Any _ (ready_plan m f a b) (Planned m) _ _ (create_manager-Makes f a b)
                (λ x bad. Planned-partly f a b has_a has_b x [] (ready_plan m f a b) bad refl)
                λ mgr _. record {
                  at = λ s. (
                    f,
                    a,
                    b,
                    mgr,
                    has_a,
                    has_b,
                    Logs-widen (
                        (run_manager-Appends a b mgr).at (record {
                          inner = s;
                          log = made_manager (manager_options f a b) mgr ∷ ready_plan m f a b;
                        })),
                  );
                }

  after_init :
      (r : Outcome (Unit {0})) (s : S) (es : List (Setup T))
      (f : Action (WithLog (Setup T) S) (Unit {0}))
      → Logs (types_plan m) [] r es
      → Ends (types_plan m) (Planned m) f
      → (Planned m)
          (resume r raise (λ _. f) (record { inner = s; log = es })).0
          (resume r raise (λ _. f) (record { inner = s; log = es })).1.log
  after_init (ok tt) s es f (all same) ends = rw same (ends.at s)
  after_init (err e) s es f (all same) ends =
      rw same (Planned-early (err e) [] (types_plan m) (λ x h. cc) refl)
  after_init panic s es f (all same) ends =
      rw same (Planned-early panic [] (types_plan m) (λ x h. cc) refl)
  after_init (ok tt) s es f (partly later earlier bad cut same) ends = absurd (bad tt refl)
  after_init (err e) s es f (partly later earlier bad cut same) ends =
      Planned-cut (err e) later earlier es (λ x h. cc) cut same
  after_init panic s es f (partly later earlier bad cut same) ends =
      Planned-cut panic later earlier es (λ x h. cc) cut same

  read_flags-Ends :
      Ends (types_plan m) (Planned m) ((traced m).parse default_flags >>= configure (traced m))
  read_flags-Ends =
      Ends-bind Any _ (types_plan m) (Planned m) _ _
        (Makes-logged_ok (parsed default_flags) (m.parse default_flags))
        (λ x bad. Planned-early x [] (types_plan m) bad refl) (λ f _. configure-Ends f)

  pub main-Ends : Ends [] (Planned m) (main (traced m))
  unfolding main
  main-Ends = record {
    at = λ s.
        let r = init (traced m) (unlogged s) in
        after_init r.0 r.1.inner r.1.log _ (init-Appends.at (unlogged s)) read_flags-Ends;
  }
