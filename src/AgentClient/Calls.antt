-- ===== src/AgentClient/Calls.antt =====
-- What a call of the agent keeps: the predicates that the calls of its connection keep.
use live_pod_migration.Base.{ℕ, String}
use live_pod_migration.Effect.Keeps.{Keeps, keeps_rules}
use live_pod_migration.Api.Core.{ObjectKey}
use live_pod_migration.Api.Rpc.{CheckpointRequest, ConvertRequest}
use live_pod_migration.World.{World}
use live_pod_migration.AgentClient.{dial_agent, convert_checkpoint_to_image, checkpoint_container}

module _ {S : Type 0} (w : World S) {P : S → Type 0}
    (nodes : (k : ObjectKey) → Keeps P (w.get_node k)) (dials : (e : String) → Keeps P (w.dial e))
    (hangs : (c : ℕ) → Keeps P (w.hang_up c)) where
  dial_agent-Keeps : (node : String) → Keeps P (dial_agent w node)
  unfolding dial_agent
  dial_agent-Keeps node = search (keeps_rules) depth 8

  pub convert_checkpoint_to_image-Keeps :
      ((c : ℕ) (req : ConvertRequest) → Keeps P (w.convert_rpc c req))
      → (node path container image : String)
      → Keeps P (convert_checkpoint_to_image w node path container image)
  unfolding convert_checkpoint_to_image
  convert_checkpoint_to_image-Keeps rpcs node path container image = search (keeps_rules) depth 10

  pub checkpoint_container-Keeps :
      ((c : ℕ) (req : CheckpointRequest) → Keeps P (w.checkpoint_rpc c req))
      → (node namespace pod container uid : String)
      → Keeps P (checkpoint_container w node namespace pod container uid)
  unfolding checkpoint_container
  checkpoint_container-Keeps rpcs node namespace pod container uid = search (keeps_rules) depth 10
