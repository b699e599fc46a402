-- ===== src/Manager/Trace.antt =====
-- The calls of cmd/main.go that set the manager up, logged where they succeed, and its start.
use live_pod_migration.Base.{ℕ, String, List}
use live_pod_migration.Effect.Logged.{WithLog, logged, logged_ok, silent}
use live_pod_migration.Manager.Host.{Flags, ManagerOptions, Controller, ManagerCalls}

pub data Setup (T : Type 0) : Type 0 where
  added_client_go_types : Setup T
  -- group, version, kinds
  added_types : String → String → List String → Setup T
  -- the defaults and what was read
  parsed : Flags → Flags → Setup T
  -- certificate, key
  watched : String → String → ℕ → Setup T
  made_manager : ManagerOptions → ℕ → Setup T
  completed : ℕ → Controller T → Setup T
  added : ℕ → ℕ → Setup T
  added_healthz added_readyz : ℕ → String → Setup T
  started : ℕ → Setup T

abbrev pub traced : {S T : Type 0} → ManagerCalls S T → ManagerCalls (WithLog (Setup T) S) T
traced m = record {
  parse = λ f. logged_ok (parsed f) (m.parse f);
  add_client_go_types = logged_ok (λ _. added_client_go_types) m.add_client_go_types;
  add_types = λ g v ks. logged_ok (λ _. added_types g v ks) (m.add_types g v ks);
  join = m.join;
  new_cert_watcher = λ cert key. logged_ok (watched cert key) (m.new_cert_watcher cert key);
  get_config = silent m.get_config;
  new_manager = λ config o. logged_ok (made_manager o) (m.new_manager config o);
  client = m.client;
  complete = λ mgr c. logged_ok (λ _. completed mgr c) (m.complete mgr c);
  add = λ mgr watcher. logged_ok (λ _. added mgr watcher) (m.add mgr watcher);
  add_healthz_check =
      λ mgr name. logged_ok (λ _. added_healthz mgr name) (m.add_healthz_check mgr name);
  add_readyz_check =
      λ mgr name. logged_ok (λ _. added_readyz mgr name) (m.add_readyz_check mgr name);
  start = λ mgr. logged (λ _. started mgr) (m.start mgr);
}
