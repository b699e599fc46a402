-- ===== src/AgentServer/Published.antt =====
-- What the server's `Checkpoint` publishes.
use live_pod_migration.Base.{ℕ, String, ◌<>◌, ◌≡◌, refl, ap, ◌∙◌, sym, true, false, List, [], ◌∷◌}
use live_pod_migration.Effect.{Outcome, ok, err, panic, pure, resume, attempt, Action}
use live_pod_migration.Effect.Finishes.{Finishes, Finishes-attempt}
use live_pod_migration.Api.Rpc.{CheckpointRequest, CheckpointResponse}
use live_pod_migration.AgentServer.Host.{NodeCalls}
use live_pod_migration.AgentServer.Kubelet.{make_tls_client, do_checkpoint_with_backoff}
use live_pod_migration.Migration.Images.{image_name}
use live_pod_migration.AgentServer.Storage.{copy_to_shared_storage}
use live_pod_migration.AgentServer.Storage.Handles.{copy_name}
use live_pod_migration.AgentServer.Artifacts.{
  artifact_name, suffixed, copy_name_lem, shared_uri-roundtrip,
}
use live_pod_migration.AgentServer.{
  failure, created, checkpoint_url, publish_artifact, first_file, checkpoint, local_path,
}

-- the URI that says how the copy of `file` ended
abbrev pub UriOf : {S : Type 0} → String → Outcome String × S → String → S → Type 0
UriOf file (ok name, t) uri s₁ = (uri ≡ "shared://" <> name) × (s₁ ≡ t)
UriOf file (err e, t) uri s₁ = (uri ≡ "file://" <> file) × (s₁ ≡ t)
UriOf file (panic, t) uri s₁ = ⊥

answered :
    {S : Type 0} (file : String) (r : Outcome String) (t : S) (resp : CheckpointResponse) (s₁ : S)
    → resume r
        (λ _. pure (created ("file://" <> file)))
        (λ path. pure (created ("shared://" <> path)))
        t
      ≡ (ok resp, s₁)
    → UriOf file (r, t) resp.artifact_uri s₁
answered {S} file (ok name) t resp s₁ e =
    let got : ok (created ("shared://" <> name)) ≡ ok resp =
      ap (λ (x : Outcome CheckpointResponse × S). x.0) e in
    let same : created ("shared://" <> name) ≡ resp = cc in
    (
      ap (λ (r : CheckpointResponse). r.artifact_uri) (sym same),
      ap (λ (x : Outcome CheckpointResponse × S). x.1) (sym e),
    )
answered {S} file (err x) t resp s₁ e =
    let got : ok (created ("file://" <> file)) ≡ ok resp =
      ap (λ (x : Outcome CheckpointResponse × S). x.0) e in
    let same : created ("file://" <> file) ≡ resp = cc in
    (
      ap (λ (r : CheckpointResponse). r.artifact_uri) (sym same),
      ap (λ (x : Outcome CheckpointResponse × S). x.1) (sym e),
    )
answered {S} file panic t resp s₁ e = cc

-- a failure reports no success
Finishes-failure :
    {S : Type 0} {P : CheckpointResponse → S → Type 0} (text : String) (s : S)
    → Finishes s (λ resp s₁. resp.success ≡ true → P resp s₁) (pure (failure text))
Finishes-failure {S} text s = record {
  at = λ resp s₁ e h.
      let got : ok (failure text) ≡ ok resp = ap (λ (x : Outcome CheckpointResponse × S). x.0) e in
      let same : failure text ≡ resp = cc in
      let no : false ≡ true = ap (λ (r : CheckpointResponse). r.success) same ∙ h in cc;
}

caught :
    {S A : Type 0} (P : CheckpointResponse → S → Type 0) (text : String) (m : Action S A)
    (f : A → Action S CheckpointResponse) (s : S)
    → ((a : A)
        → m s ≡ (ok a, (m s).1)
        → Finishes (m s).1 (λ resp s₁. resp.success ≡ true → P resp s₁) (f a))
    → Finishes s
        (λ resp s₁. resp.success ≡ true → P resp s₁)
        (attempt m (λ e. pure (failure (text <> e.text))) f)
caught P text m f s ff =
    Finishes-attempt s (λ resp s₁. resp.success ≡ true → P resp s₁) m
      (λ e. pure (failure (text <> e.text))) f (λ e _. Finishes-failure (text <> e.text) (m s).1)
      (λ a same. ff a (ap (λ x. (x, (m s).1)) same))

module _ {S : Type 0} (n : NodeCalls S) (node : String) (req : CheckpointRequest) where
  -- the copy that follows an answer of the kubelet with `file` as the first of its files
  abbrev pub Published : S → CheckpointResponse → S → Type 0
  Published s resp s₁ =
      (t₀ t₁ t₂ : S) × (client : ℕ) × (file : String) × (files : List String) × (n.mkdir_all
          "/var/lib/kubelet/checkpoints" s
        ≡ (ok tt, t₀))
      × (make_tls_client n t₀ ≡ (ok client, t₁))
      × (do_checkpoint_with_backoff n client (checkpoint_url n node req) t₁
          ≡ (ok (file ∷ files), t₂))
      × UriOf file (copy_to_shared_storage n.files req.pod_uid req.container_name file t₂)
          resp.artifact_uri s₁

  publish_artifact-UriOf :
      (file : String) (s : S)
      → Finishes s
          (λ resp s₁.
            UriOf file
              (copy_to_shared_storage n.files req.pod_uid req.container_name file s)
              resp.artifact_uri
              s₁)
          (publish_artifact n req file)
  unfolding publish_artifact
  publish_artifact-UriOf file s =
      let copied = copy_to_shared_storage n.files req.pod_uid req.container_name file s in
      record { at = λ resp s₁ e. answered file copied.0 copied.1 resp s₁ e }

  first_file-Published :
      (s t₀ t₁ t₂ : S) (client : ℕ) (files : List String)
      → n.mkdir_all "/var/lib/kubelet/checkpoints" s ≡ (ok tt, t₀)
      → make_tls_client n t₀ ≡ (ok client, t₁)
      → do_checkpoint_with_backoff n client (checkpoint_url n node req) t₁ ≡ (ok files, t₂)
      → Finishes t₂ (λ resp s₁. resp.success ≡ true → Published s resp s₁) (first_file n req files)
  unfolding first_file
  first_file-Published s t₀ t₁ t₂ client [] made had answered =
      Finishes-failure "no checkpoint files created" t₂
  first_file-Published s t₀ t₁ t₂ client (file ∷ files) made had answered = record {
    at = λ resp s₁ e _. (
      t₀,
      t₁,
      t₂,
      client,
      file,
      files,
      made,
      had,
      answered,
      (publish_artifact-UriOf file t₂).at resp s₁ e,
    );
  }

  checkpoint-Finishes :
      (s : S)
      → Finishes s (λ resp s₁. resp.success ≡ true → Published s resp s₁) (checkpoint n node req)
  unfolding checkpoint
  checkpoint-Finishes s =
      let t₀ = (n.mkdir_all "/var/lib/kubelet/checkpoints" s).1 in
      let t₁ = (make_tls_client n t₀).1 in
      caught (Published s) "failed to create checkpoint directory: "
        (n.mkdir_all "/var/lib/kubelet/checkpoints") _ s
        λ x made.
          caught (Published s) "failed to create TLS client: " (make_tls_client n) _ t₀
            λ client had.
              caught (Published s) "checkpoint failed: "
                (do_checkpoint_with_backoff n client (checkpoint_url n node req)) _ t₁
                λ files answer. first_file-Published s t₀ t₁ _ client files made had answer

-- A checkpoint that the server reports as done was asked of the kubelet, once there was a client for it,
-- and the first of the files of its answer was then copied to the shared mount: the URI is `shared://` and
-- the name of the copy if the copy succeeded, and `file://` and that file if it failed.
pub checkpoint-publishes :
    {S : Type 0} (n : NodeCalls S) (node : String) (req : CheckpointRequest)
    (resp : CheckpointResponse) (s s₁ : S)
    → checkpoint n node req s ≡ (ok resp, s₁)
    → resp.success ≡ true
    → Published n node req s resp s₁
checkpoint-publishes n node req resp s s₁ e h = (checkpoint-Finishes n node req s).at resp s₁ e h

publish_copied :
    {S : Type 0} (n : NodeCalls S) (req : CheckpointRequest) (file name : String) (s : S)
    → (copy_to_shared_storage n.files req.pod_uid req.container_name file s).0 ≡ ok name
    → (publish_artifact n req file s).0 ≡ ok (created ("shared://" <> name))
unfolding publish_artifact
publish_copied n req file name s copied = rw copied refl

-- If the copy of a checkpoint succeeds, the checkpoint is published as done, under a URI that the agent
-- which converts it takes for the file of the shared mount that is named for the pod's UID, the container
-- and the time that the clock told the copy, and for which the reconciler names the image by these three.
pub publish_artifact-roundtrip :
    {S : Type 0} (n : NodeCalls S) (req : CheckpointRequest) (file stamp name : String) (s : S)
    → (n.files.timestamp s).0 ≡ ok stamp
    → (copy_to_shared_storage n.files req.pod_uid req.container_name file s).0 ≡ ok name
    → (resp : CheckpointResponse) × ((publish_artifact n req file s).0 ≡ ok resp)
      × (resp.success ≡ true)
      × (local_path n resp.artifact_uri
          ≡ n.files.join "/mnt/checkpoints" (copy_name req.pod_uid req.container_name stamp))
      × (image_name resp.artifact_uri ≡ "localhost/checkpoint:" <> artifact_name req stamp)
publish_artifact-roundtrip n req file stamp name s told copied =
    let same = copy_name_lem n req file stamp name s told copied in
    let (path, image) = shared_uri-roundtrip n (artifact_name req stamp) in
    (
      created ("shared://" <> name),
      publish_copied n req file name s copied,
      refl,
      ap (λ a. local_path n ("shared://" <> a)) same
          ∙ path
          ∙ ap (n.files.join "/mnt/checkpoints") (sym (suffixed n req stamp)),
      ap (λ a. image_name ("shared://" <> a)) same ∙ image,
    )
