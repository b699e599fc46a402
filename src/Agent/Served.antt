-- ===== src/Agent/Served.antt =====
-- A world whose gRPC transport leads to the agents' servers.
use live_pod_migration.Base.{ℕ, String, ◌≡◌, ap, true}
use live_pod_migration.Effect.{Action, ok, pure, raise}
use live_pod_migration.Effect.Yields.{
  Yields, Yields-pure, Yields-raise, Yields-if, Yields-attempt, Yields-caught, Yields-finally,
}
use live_pod_migration.Api.Rpc.{
  CheckpointRequest, CheckpointResponse, ConvertRequest, ConvertResponse,
}
use live_pod_migration.World.{World}
use live_pod_migration.AgentServer.Host.{NodeCalls}
use live_pod_migration.AgentServer
use live_pod_migration.AgentServer.Laws.{convert_checkpoint_to_image-names}
use live_pod_migration.AgentServer.Artifacts.{Artifact, checkpoint-Artifact}
use live_pod_migration.AgentClient.{
  dial_agent, connected, checkpoint_container, convert_checkpoint_to_image,
}

-- What gRPC documents of a call: a response that a client gets is one that the server's method
-- returned for that request. The server of connection `c` is on the node `host c`, whose calls are
-- `n c`; a call may also fail.
pub record Serves {S T : Type 0} (w : World S) (n : ℕ → NodeCalls T) (host : ℕ → String)
    : Type 0 where
  pub checkpoint :
      (c : ℕ) (req : CheckpointRequest) (resp : CheckpointResponse) (s s₁ : S)
      → w.checkpoint_rpc c req s ≡ (ok resp, s₁)
      → (t t₁ : T) × (AgentServer.checkpoint (n c) (host c) req t ≡ (ok resp, t₁))
  pub convert :
      (c : ℕ) (req : ConvertRequest) (resp : ConvertResponse) (s s₁ : S)
      → w.convert_rpc c req s ≡ (ok resp, s₁)
      → (t t₁ : T) × (AgentServer.convert_checkpoint_to_image (n c) req t ≡ (ok resp, t₁))

module _ {S T : Type 0} (w : World S) (n : ℕ → NodeCalls T) (host : ℕ → String)
    (serves : Serves w n host) where
  checkpoint_rpc-Yields :
      (c : ℕ) (req : CheckpointRequest)
      → Yields (λ r. r.success ≡ true → Artifact (n c) req r.artifact_uri) (w.checkpoint_rpc c req)
  checkpoint_rpc-Yields c req = record {
    at = λ s resp e.
        let (t, t₁, same) =
          serves.checkpoint c req resp s (w.checkpoint_rpc c req s).1
            (ap (λ r. (r, (w.checkpoint_rpc c req s).1)) e) in
        checkpoint-Artifact (n c) (host c) req resp t t₁ same;
  }

  convert_rpc-Yields :
      (c : ℕ) (req : ConvertRequest)
      → Yields (λ r. r.success ≡ true → r.image_reference ≡ req.image_name) (w.convert_rpc c req)
  convert_rpc-Yields c req = record {
    at = λ s resp e h.
        let (t, t₁, same) =
          serves.convert c req resp s (w.convert_rpc c req s).1
            (ap (λ r. (r, (w.convert_rpc c req s).1)) e) in
        ((convert_checkpoint_to_image-names (n c) req resp t t₁ same).0 h).0;
  }

  -- an answer on a connection to any agent
  connected-Yields :
      {A : Type 0} {Q : A → Type 0} (node : String) (call : ℕ → Action S A)
      → ((c : ℕ) → Yields Q (call c))
      → Yields Q (connected w node call)
  connected-Yields node call y =
      Yields-attempt (dial_agent w node) _ _ (λ e. Yields-raise _)
        (λ conn. Yields-finally (call conn) (w.hang_up conn) (y conn))

  pub checkpoint_container-Yields :
      (node namespace pod container uid : String)
      → Yields
          (λ uri.
            (c : ℕ) × Artifact
              (n c)
              (record {
                pod_namespace = namespace;
                pod_name = pod;
                container_name = container;
                pod_uid = uid;
              })
              uri)
          (checkpoint_container w node namespace pod container uid)
  unfolding checkpoint_container
  checkpoint_container-Yields node namespace pod container uid =
      let req : CheckpointRequest = record {
        pod_namespace = namespace;
        pod_name = pod;
        container_name = container;
        pod_uid = uid;
      } in
      connected-Yields node _ λ conn.
        Yields-caught _ (w.checkpoint_rpc conn req) _ _ (checkpoint_rpc-Yields conn req)
          (λ e. Yields-raise _)
          λ resp good.
            Yields-if resp.success (pure resp.artifact_uri) (raise _)
              (λ h. Yields-pure resp.artifact_uri (conn, good h)) (λ _. Yields-raise _)

  pub convert_checkpoint_to_image-Yields :
      (node path container image : String)
      → Yields (λ a. a ≡ image) (convert_checkpoint_to_image w node path container image)
  unfolding convert_checkpoint_to_image
  convert_checkpoint_to_image-Yields node path container image =
      let req : ConvertRequest = record {
        checkpoint_path = path;
        container_name = container;
        image_name = image;
      } in
      connected-Yields node _ λ conn.
        Yields-caught _ (w.convert_rpc conn req) _ _ (convert_rpc-Yields conn req)
          (λ e. Yields-raise _)
          λ resp good.
            Yields-if resp.success (pure resp.image_reference) (raise _)
              (λ h. Yields-pure resp.image_reference (good h)) (λ _. Yields-raise _)
