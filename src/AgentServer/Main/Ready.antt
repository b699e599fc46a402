-- ===== src/AgentServer/Main/Ready.antt =====
-- What the agent has registered when it serves.
use live_pod_migration.Base.{ℕ, String, List, [], ◌∷◌, ◌++◌}
use live_pod_migration.Effect.{Outcome}
use live_pod_migration.Effect.Logged.{WithLog, logged, logged_ok, silent, Logs}
use live_pod_migration.Effect.Ends.{Ends}
use live_pod_migration.AgentServer.{new_checkpoint_server}
use live_pod_migration.AgentServer.Main.{ServerCalls}

-- the server first; of a variable read, the name and the value
pub data Registration : Type 0 where
  read_env : String → String → Registration
  checkpoint_service : ℕ → String → Registration
  health_service : ℕ → ℕ → Registration
  serving_status : ℕ → String → Registration
  reflection stopped_by_signal : ℕ → Registration
  served : ℕ → ℕ → Registration

abbrev pub recorded : {S : Type 0} → ServerCalls S → ServerCalls (WithLog Registration S)
recorded c = record {
  mkdir_all = λ path. silent (c.mkdir_all path);
  listen = λ port. silent (c.listen port);
  new_server = λ receive send. silent (c.new_server receive send);
  get_env = λ name. logged_ok (read_env name) (c.get_env name);
  register_checkpoint_service =
      λ s name. logged_ok (λ _. checkpoint_service s name) (c.register_checkpoint_service s name);
  new_health_server = silent c.new_health_server;
  register_health_server =
      λ s h. logged_ok (λ _. health_service s h) (c.register_health_server s h);
  set_serving = λ h service. logged_ok (λ _. serving_status h service) (c.set_serving h service);
  register_reflection = λ s. logged_ok (λ _. reflection s) (c.register_reflection s);
  stop_on_signal = λ s. logged_ok (λ _. stopped_by_signal s) (c.stop_on_signal s);
  serve = λ s l. logged (λ _. served s l) (c.serve s l);
}

-- what the value of `NODE_NAME` leads to, the newest first
abbrev pub named_start : ℕ → String → List Registration
named_start server node_name =
    checkpoint_service server (new_checkpoint_server node_name)
    ∷ read_env "NODE_NAME" node_name
    ∷ []

-- after the checkpoint service, the newest first
abbrev pub rest_plan : ℕ → ℕ → ℕ → List Registration
rest_plan server listener health =
    served server listener
    ∷ stopped_by_signal server
    ∷ reflection server
    ∷ serving_status health ""
    ∷ health_service server health
    ∷ []

abbrev pub plan : ℕ → ℕ → String → ℕ → List Registration
plan server listener node_name health =
    rest_plan server listener health ++ named_start server node_name

abbrev pub Ready : Outcome (Unit {0}) → List Registration → Type 0
Ready r es =
    (server : ℕ) × (listener : ℕ) × (node_name : String) × (health : ℕ) × Logs
      (plan server listener node_name health) [] r es
