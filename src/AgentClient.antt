-- ===== src/AgentClient.antt =====
-- internal/agent/client.go: the calls of the checkpoint agent on a node. The port and the message
-- sizes are constants of the transport; `conn` is the number that the transport gave it.
pub mod Calls
pub mod Dialing
pub mod Closing
use live_pod_migration.Base.{
  ℕ, String, ◌<>◌, Bool, true, false, Option, none, some, List, [], ◌∷◌, if◌then◌else◌,
}
use live_pod_migration.Effect.{Action, wrap, new_error, pure, raise, attempt, ◌>>=◌, finally, maybe}
use live_pod_migration.Api.Core.{
  AddressType, internal_ip, hostname, external_ip, internal_dns, external_dns, NodeAddress,
}
use live_pod_migration.Api.Rpc.{CheckpointResponse, ConvertResponse}
use live_pod_migration.World.{World}

abbrev is_internal_ip : AddressType → Bool
is_internal_ip internal_ip = true
is_internal_ip hostname = false
is_internal_ip external_ip = false
is_internal_ip internal_dns = false
is_internal_ip external_dns = false

-- The loop over `node.Status.Addresses`: the first internal address, with `agentPort`.
unfoldable pub internal_endpoint : List NodeAddress → Option String
internal_endpoint [] = none
internal_endpoint (a ∷ addresses) =
    if is_internal_ip a.type then some (a.address <> ":50051") else internal_endpoint addresses

module _ {S : Type 0} (w : World S) where
  pub get_node_endpoint : String → Action S String
  get_node_endpoint node =
      attempt (w.get_node (record { namespace = ""; name = node }))
        (λ e. raise (wrap ("failed to get node " <> node <> ": ") e))
        (λ n.
          maybe (internal_endpoint n.addresses)
            (raise (new_error ("no internal IP found for node " <> node))) pure)

  pub dial_agent : String → Action S ℕ
  unfolding get_node_endpoint
  dial_agent node = do
    endpoint ← get_node_endpoint node
    attempt (w.dial endpoint) (λ e. raise (wrap ("failed to dial " <> endpoint <> ": ") e)) pure

  -- a call on a connection that is closed when it returns
  abbrev pub connected : {A : Type 0} → String → (ℕ → Action S A) → Action S A
  connected node call =
      attempt (dial_agent node)
        (λ e. raise (wrap ("failed to connect to agent on node " <> node <> ": ") e))
        (λ conn. finally (call conn) (w.hang_up conn))

  abbrev artifact_of : CheckpointResponse → Action S String
  artifact_of resp =
      if resp.success
      then pure resp.artifact_uri
      else raise (new_error ("checkpoint failed: " <> resp.error))

  -- node, namespace, pod, container, pod UID
  unfoldable pub checkpoint_container : String → String → String → String → String → Action S String
  unfolding dial_agent
  checkpoint_container node namespace pod container uid = connected node λ conn.
      attempt
        (w.checkpoint_rpc conn (record {
          pod_namespace = namespace;
          pod_name = pod;
          container_name = container;
          pod_uid = uid;
        }))
        (λ e. raise (wrap "checkpoint RPC failed: " e)) artifact_of

  abbrev image_of : ConvertResponse → Action S String
  image_of resp =
      if resp.success
      then pure resp.image_reference
      else raise (new_error ("conversion failed: " <> resp.error))

  -- node, checkpoint path, container, image name
  unfoldable pub convert_checkpoint_to_image : String → String → String → String → Action S String
  unfolding dial_agent
  convert_checkpoint_to_image node path container image = connected node λ conn.
      attempt
        (w.convert_rpc conn
          (record { checkpoint_path = path; container_name = container; image_name = image }))
        (λ e. raise (wrap "convert RPC failed: " e)) image_of
