-- ===== src/AgentServer/Main.antt =====
-- The agent's `main`. `err` is an exit with status 1 by `log.Fatalf`; the other log output is left out.
pub mod Ready
use live_pod_migration.Base.{ℕ, String, ◌<>◌}
use live_pod_migration.Effect.{Action, new_error, pure, raise, attempt, ◌>>=◌, ◌>>◌}
use live_pod_migration.AgentServer.{new_checkpoint_server}

-- what it calls and does not implement; servers and listeners are known by a number
pub record ServerCalls (S : Type 0) : Type 0 where
  pub mkdir_all : String → Action S (Unit {0})
  -- `net.Listen("tcp", port)`
  pub listen : String → Action S ℕ
  -- `grpc.NewServer` with the largest message that it receives and that it sends
  pub new_server : ℕ → ℕ → Action S ℕ
  -- `os.Getenv`
  pub get_env : String → Action S String
  -- with a `CheckpointServer` of the node's name
  pub register_checkpoint_service : ℕ → String → Action S (Unit {0})
  -- `health.NewServer()`
  pub new_health_server : Action S ℕ
  pub register_health_server : ℕ → ℕ → Action S (Unit {0})
  -- `SetServingStatus(service, SERVING)`
  pub set_serving : ℕ → String → Action S (Unit {0})
  -- `reflection.Register`
  pub register_reflection : ℕ → Action S (Unit {0})
  -- `go func()` that waits for SIGINT or SIGTERM, and then calls `GracefulStop` of the server
  pub stop_on_signal : ℕ → Action S (Unit {0})
  -- until the server is stopped
  pub serve : ℕ → ℕ → Action S (Unit {0})

-- `if err != nil { log.Fatalf("…: %v", err) }`
pub fatal : {S A : Type 0} → String → Action S A → Action S A
fatal text call = attempt call (λ e. raise (new_error (text <> ": " <> e.text))) pure

module _ {S : Type 0} (c : ServerCalls S) where
  -- with the server, the listener and the health server
  pub register_and_serve : ℕ → ℕ → ℕ → Action S (Unit {0})
  unfolding fatal
  register_and_serve server listener health = do
    c.register_health_server server health
    c.set_serving health ""
    c.register_reflection server
    c.stop_on_signal server
    fatal "Failed to serve" (c.serve server listener)

  pub main : Action S (Unit {0})
  unfolding register_and_serve
  main = do
    fatal "Failed to create checkpoint directory" (c.mkdir_all "/var/lib/kubelet/checkpoints")
    listener ← fatal "Failed to listen" (c.listen ":50051")
    server ← c.new_server 104857600 104857600
    node_name ← c.get_env "NODE_NAME"
    c.register_checkpoint_service server (new_checkpoint_server node_name)
    health ← c.new_health_server
    register_and_serve server listener health
