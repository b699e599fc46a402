-- ===== src/Tests/Server.antt =====
-- The agent's start on a port that it can listen on, with a health server that fails.
use live_pod_migration.Effect.{new_error, pure, raise}
use live_pod_migration.AgentServer.Main.{ServerCalls}
use live_pod_migration.AgentServer.Main.Ready.{Ready}

abbrev calls : ServerCalls (Unit {0})
calls = record {
  mkdir_all = λ path. pure tt;
  listen = λ port. pure 1;
  new_server = λ receive send. pure 2;
  get_env = λ name. pure "node-a";
  register_checkpoint_service = λ server name. pure tt;
  new_health_server = pure 3;
  register_health_server = λ server health. raise (new_error "no health");
  set_serving = λ health service. pure tt;
  register_reflection = λ server. pure tt;
  stop_on_signal = λ server. pure tt;
  serve = λ server listener. pure tt;
}
