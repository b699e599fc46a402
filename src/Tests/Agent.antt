-- ===== src/Tests/Agent.antt =====
-- The agent's server on a node whose files are all there, and on one without any.
use live_pod_migration.Base.{
  ℕ, zero, suc, String, ◌<>◌, ◌≡◌, refl, ◌≢◌, ◌==◌, Bool, true, false, none, List, [], ◌∷◌,
}
use live_pod_migration.Effect.{Action, Outcome, ok, err, panic, new_error, pure}
use live_pod_migration.Api.Rpc.{
  CheckpointRequest, CheckpointResponse, ConvertRequest, ConvertResponse,
}
use live_pod_migration.AgentServer.Host.{NodeCalls, Trying}
use live_pod_migration.AgentServer.Kubelet.{make_tls_client, do_checkpoint_with_backoff}
use live_pod_migration.AgentServer.Kubelet.Files.{
  StopsWhenDone, do_checkpoint_with_backoff-nonempty,
}
use live_pod_migration.AgentServer.Kubelet.Certificates.{make_tls_client-no_files}
use live_pod_migration.AgentServer.Laws.{convert_checkpoint_to_image-names}
use live_pod_migration.AgentServer.Storage.{copy_to_shared_storage}
use live_pod_migration.AgentServer.Storage.Handles.{copy_name}
use live_pod_migration.AgentServer.Artifacts.{artifact_name}
use live_pod_migration.AgentServer.Published.{
  Published, checkpoint-publishes, publish_artifact-roundtrip,
}
use live_pod_migration.Migration.Images.{image_name}
use live_pod_migration.AgentServer.{
  checkpoint, publish_artifact, local_path, convert_checkpoint_to_image,
}

abbrev Tries : Type 0
Tries = Trying (Unit {0})

abbrev pub after :
    {S : Type 0}
    → Outcome Bool × Trying S
    → Action (Trying S) (Unit {0})
    → Outcome (Unit {0}) × Trying S
after (ok true, t) next = (ok tt, t)
after (ok false, t) next = next t
after (err e, t) next = (err e, t)
after (panic, t) next = (panic, t)

-- a backoff that does not wait
abbrev pub retry : {S : Type 0} → ℕ → Action (Trying S) Bool → Action (Trying S) (Unit {0})
retry zero condition t = (err (new_error "timed out waiting for the condition"), t)
retry (suc steps) condition t = after (condition t) (retry steps condition)

-- whether the node's files are missing
abbrev pub node : Bool → NodeCalls (Unit {0})
node missing = record {
  mkdir_all = λ path. pure tt;
  not_exists = λ path. pure missing;
  read_file = λ path. pure "certificate";
  files = record {
    open_file = λ path. pure 3;
    create_file = λ path. pure 4;
    copy = λ dest source. pure tt;
    sync = λ file. pure tt;
    close_file = λ file. pure tt;
    join = λ folder name. folder <> "/" <> name;
    timestamp = pure "20250101-120000";
  };
  load_key_pair = λ cert key. pure 7;
  has_certs = λ bytes. false;
  http_client = λ cert bytes. 8;
  new_request = λ url. pure 9;
  send = λ client req. pure (record {
    status = 200;
    read_all = pure ("{\"items\":[\"/var/lib/kubelet/checkpoints/web.tar\"]}", none);
    close = pure tt;
  });
  unmarshal = λ bytes. pure ("/var/lib/kubelet/checkpoints/web.tar" ∷ []);
  decimal = λ status. "200";
  exponential_backoff = retry;
  images = record { command = λ args. pure ("container", none); trim_space = λ text. text };
}

abbrev pub ready : NodeCalls (Unit {0})
ready = record (node false) { has_certs = λ bytes. true }

after-stops :
    {Goal : Type 0} (r : Outcome Bool × Tries) (next : Action Tries (Unit {0})) (t₁ : Tries)
    → (r ≡ (ok true, t₁) → Goal)
    → ((t : Tries) → next t ≡ (ok tt, t₁) → Goal)
    → after r next ≡ (ok tt, t₁)
    → Goal
after-stops (ok true, t) next t₁ now later e = now cc
after-stops (ok false, t) next t₁ now later e = later t e
after-stops (err x, t) next t₁ now later e = cc
after-stops (panic, t) next t₁ now later e = cc

ready-StopsWhenDone : StopsWhenDone ready
ready-StopsWhenDone zero condition t t₁ e = cc
ready-StopsWhenDone (suc steps) condition t t₁ e =
    after-stops (condition t) (retry steps condition) t₁ (λ p. (t, p))
      (λ t' p. ready-StopsWhenDone steps condition t' t₁ p) e

abbrev checkpoint_request : CheckpointRequest
checkpoint_request = record {
  pod_namespace = "shop";
  pod_name = "web";
  container_name = "app";
  pod_uid = "u-1";
}

abbrev convert_request : ConvertRequest
convert_request = record {
  checkpoint_path = "shared://web.tar";
  container_name = "app";
  image_name = "localhost/checkpoint:web";
}

abbrev found_files : List String
found_files = "/var/lib/kubelet/checkpoints/web.tar" ∷ []

do_checkpoint_with_backoff-nonempty_example : found_files ≢ []
unfolding do_checkpoint_with_backoff
do_checkpoint_with_backoff-nonempty_example =
    do_checkpoint_with_backoff-nonempty ready 8 "https://node-a:10250/checkpoint/shop/web/app"
      found_files tt tt ready-StopsWhenDone refl

abbrev published : CheckpointResponse
published = record {
  success = true;
  artifact_uri = "shared://u-1-app-20250101-120000.tar";
  message = "checkpoint created successfully";
  error = "";
}

checkpoint-publishes_example : Published ready "node-a" checkpoint_request tt published tt
unfolding checkpoint
checkpoint-publishes_example =
    checkpoint-publishes ready "node-a" checkpoint_request published tt tt refl refl

publish_artifact-roundtrip_example :
    (resp : CheckpointResponse) × ((publish_artifact ready checkpoint_request
        "/var/lib/kubelet/checkpoints/web.tar" tt).0
      ≡ ok resp)
    × (resp.success ≡ true)
    × (local_path ready resp.artifact_uri
        ≡ ready.files.join "/mnt/checkpoints" (copy_name "u-1" "app" "20250101-120000"))
    × (image_name resp.artifact_uri
        ≡ "localhost/checkpoint:" <> artifact_name checkpoint_request "20250101-120000")
unfolding copy_to_shared_storage
publish_artifact-roundtrip_example =
    publish_artifact-roundtrip ready checkpoint_request "/var/lib/kubelet/checkpoints/web.tar"
      "20250101-120000" "u-1-app-20250101-120000.tar" tt refl refl

abbrev convert_answer : ConvertResponse
convert_answer = record {
  success = true;
  image_reference = "localhost/checkpoint:web";
  message = "checkpoint successfully converted to OCI image";
  error = "";
}

convert_checkpoint_to_image-names_example :
    (convert_answer.success ≡ true
      → (convert_answer.image_reference ≡ convert_request.image_name) × (convert_answer.error ≡ ""))
    × (convert_answer.success ≡ false → convert_answer.image_reference ≡ "")
unfolding convert_checkpoint_to_image ◌==◌
convert_checkpoint_to_image-names_example =
    convert_checkpoint_to_image-names ready convert_request convert_answer tt tt refl

make_tls_client-no_files_example :
    make_tls_client (node true) tt ≡ (err (new_error "failed to parse CA certificate from "), tt)
make_tls_client-no_files_example = make_tls_client-no_files (node true) tt (λ path. refl) refl
