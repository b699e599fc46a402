-- ===== src/AgentServer.antt =====
-- cmd/checkpoint-agent/main.go: the agent's server on a node. The log output is left out.
pub mod Host
pub mod Kubelet
pub mod Images
pub mod Storage
pub mod Main
pub mod Artifacts
pub mod Laws
pub mod Published
use live_pod_migration.Base.{
  ℕ, String, ◌<>◌, Bool, true, false, Option, none, some, List, [], ◌∷◌, ◌==◌, if◌then◌else◌,
}
use live_pod_migration.Base.Text.{has_prefix, trim_prefix}
use live_pod_migration.Effect.{Action, Error, pure, raise, attempt, ◌>>=◌, ◌>>◌, finally}
use live_pod_migration.Api.Rpc.{
  CheckpointRequest, CheckpointResponse, ConvertRequest, ConvertResponse, HealthResponse,
}
use Host.{NodeCalls}
use Kubelet.{make_tls_client, do_checkpoint_with_backoff}
use Images.{convert_checkpoint_to_oci}
use Storage.{copy_to_shared_storage}

-- the server's node name, from the value of `NODE_NAME`
abbrev pub new_checkpoint_server : String → String
new_checkpoint_server node_name = if node_name == "" then "unknown" else node_name

-- the health check, on the server's node
abbrev pub health : String → HealthResponse
health node = record { healthy = true; message = "checkpoint agent healthy on node " <> node }

-- the response with `Success: false`
abbrev pub failure : String → CheckpointResponse
failure text = record { success = false; artifact_uri = ""; message = ""; error = text }

abbrev pub created : String → CheckpointResponse
created uri = record {
  success = true;
  artifact_uri = uri;
  message = "checkpoint created successfully";
  error = "";
}

abbrev pub convert_failure : String → ConvertResponse
convert_failure text = record { success = false; image_reference = ""; message = ""; error = text }

abbrev pub converted : String → ConvertResponse
converted image = record {
  success = true;
  image_reference = image;
  message = "checkpoint successfully converted to OCI image";
  error = "";
}

module _ {S : Type 0} (n : NodeCalls S) where
  -- `file://` with the local path, if the copy failed
  pub publish_artifact : CheckpointRequest → String → Action S CheckpointResponse
  unfolding copy_to_shared_storage
  publish_artifact req file =
      attempt (copy_to_shared_storage n.files req.pod_uid req.container_name file)
        (λ _. pure (created ("file://" <> file))) (λ path. pure (created ("shared://" <> path)))

  -- what follows the call of the kubelet
  pub first_file : CheckpointRequest → List String → Action S CheckpointResponse
  unfolding publish_artifact
  first_file req [] = pure (failure "no checkpoint files created")
  first_file req (file ∷ files) = publish_artifact req file

  abbrev pub checkpoint_url : String → CheckpointRequest → String
  checkpoint_url node req =
      "https://" <> node <> ":10250/checkpoint/" <> req.pod_namespace <> "/" <> req.pod_name <> "/"
      <> req.container_name

  -- the server's node name and the request
  unfoldable pub checkpoint : String → CheckpointRequest → Action S CheckpointResponse
  unfolding make_tls_client do_checkpoint_with_backoff first_file
  checkpoint node req =
      attempt (n.mkdir_all "/var/lib/kubelet/checkpoints")
        (λ e. pure (failure ("failed to create checkpoint directory: " <> e.text)))
        λ _.
          attempt (make_tls_client n)
            (λ e. pure (failure ("failed to create TLS client: " <> e.text)))
            λ client.
              attempt (do_checkpoint_with_backoff n client (checkpoint_url node req))
                (λ e. pure (failure ("checkpoint failed: " <> e.text))) (first_file req)

  -- `shared://<filename>` is a file of the shared mount
  pub local_path : String → String
  local_path path =
      if has_prefix path "shared://"
      then n.files.join "/mnt/checkpoints" (trim_prefix path "shared://")
      else path

  -- a file that is there
  pub convert_existing : ConvertRequest → String → Action S ConvertResponse
  unfolding convert_checkpoint_to_oci
  convert_existing req path =
      attempt (convert_checkpoint_to_oci n.images path req.container_name req.image_name)
        (λ e. pure (convert_failure ("conversion failed: " <> e.text)))
        (λ image. pure (converted image))

  pub convert_file : ConvertRequest → String → Action S ConvertResponse
  unfolding convert_existing
  convert_file req path = n.not_exists path >>= λ missing.
      if missing
      then pure (convert_failure ("checkpoint file not found: " <> path))
      else convert_existing req path

  unfoldable pub convert_checkpoint_to_image : ConvertRequest → Action S ConvertResponse
  unfolding local_path convert_file
  convert_checkpoint_to_image req =
      if req.checkpoint_path == ""
      then pure (convert_failure "checkpoint path is required")
      else if req.image_name == ""
      then pure (convert_failure "image name is required")
      else convert_file req (local_path req.checkpoint_path)
