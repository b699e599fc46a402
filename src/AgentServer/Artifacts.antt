-- ===== src/AgentServer/Artifacts.antt =====
-- The URI of a checkpoint: how `Checkpoint` forms it, and how the other parts of the program read it.
use text.Mathlib.TextLemmas.{append_assoc}
use live_pod_migration.Base.{
  ℕ, String, ◌<>◌, ◌≡◌, refl, ap, ◌∙◌, ◌⊎◌, inl, inr, true, List, [], ◌∷◌,
}
use live_pod_migration.Base.Text.Laws.{trim_prefix-append, trim_suffix-append, has_prefix-append}
use live_pod_migration.Effect.{Action, Error, Outcome, ok, pure, raise, attempt, finally, ◌>>=◌}
use live_pod_migration.Effect.Yields.{
  Yields, Yields-pure, Yields-raise, Yields-attempt, Yields-finally, Yields-caught, Yields-weaken,
  yields_of_answer,
}
use live_pod_migration.Api.Rpc.{CheckpointRequest, CheckpointResponse}
use live_pod_migration.AgentServer.Host.{NodeCalls}
use live_pod_migration.AgentServer.Kubelet.{make_tls_client, do_checkpoint_with_backoff}
use live_pod_migration.Migration.Images.{image_name}
use live_pod_migration.AgentServer.Storage.{write_file, copy_to_shared_storage}
use live_pod_migration.AgentServer.Storage.Handles.{copy_name}
use live_pod_migration.AgentServer.{
  failure, checkpoint_url, publish_artifact, first_file, checkpoint, local_path,
}

-- the name of the file on the shared mount, without its suffix
abbrev pub artifact_name : CheckpointRequest → String → String
artifact_name req stamp = req.pod_uid <> "-" <> req.container_name <> "-" <> stamp

module _ {S : Type 0} (n : NodeCalls S) (req : CheckpointRequest) where
  -- the name of a copy, with a time that the node's clock told
  abbrev Named : String → Type 0
  Named filename =
      (stamp : String) × (t : S) × ((n.files.timestamp t).0 ≡ ok stamp)
      × (filename ≡ artifact_name req stamp <> ".tar")

  -- a file on the shared mount, named for the pod, the container and the time, or one on the node itself
  abbrev pub Artifact : String → Type 0
  Artifact uri =
      ((name : String) × Named name × (uri ≡ "shared://" <> name))
      ⊎ ((file : String) × (uri ≡ "file://" <> file))

  -- a response that reports success has the URI of a file
  abbrev Reports : CheckpointResponse → Type 0
  Reports r = r.success ≡ true → Artifact r.artifact_uri

  Reports-failure : (text : String) → Reports (failure text)
  Reports-failure text h = cc

  write_file-Yields :
      (source dest : ℕ) (name : String)
      → Yields (λ a. a ≡ name) (write_file n.files source dest name)
  unfolding write_file
  write_file-Yields source dest name =
      Yields-attempt (n.files.copy dest source) raise _ (λ e. Yields-raise e)
        λ _.
          Yields-attempt (n.files.sync dest) raise _ (λ e. Yields-raise e)
            λ _. Yields-pure name refl

  pub suffixed :
      (stamp : String)
      → copy_name req.pod_uid req.container_name stamp ≡ artifact_name req stamp <> ".tar"
  suffixed stamp = simp append_assoc

  -- what follows the time stamp
  abbrev stamped : String → String → Action S String
  stamped file stamp =
      let name = copy_name req.pod_uid req.container_name stamp in
      n.files.open_file file >>= λ source.
      finally
        (n.files.create_file (n.files.join "/mnt/checkpoints" name) >>= λ dest.
          finally (write_file n.files source dest name) (n.files.close_file dest))
        (n.files.close_file source)

  stamped-Yields :
      (file stamp : String)
      → Yields (λ a. a ≡ artifact_name req stamp <> ".tar") (stamped file stamp)
  stamped-Yields file stamp =
      let name = copy_name req.pod_uid req.container_name stamp in
      Yields-attempt (n.files.open_file file) raise _ (λ e. Yields-raise e)
        λ source. Yields-finally _ (n.files.close_file source) (
          Yields-attempt (n.files.create_file (n.files.join "/mnt/checkpoints" name)) raise _
            (λ e. Yields-raise e)
            λ dest.
              Yields-finally (write_file n.files source dest name) (n.files.close_file dest)
                (Yields-weaken (write_file-Yields source dest name) (λ a e. e ∙ suffixed stamp)))

  -- the name that a copy answers has the time of its start
  copy_stamp :
      (file name : String) (s : S)
      → (copy_to_shared_storage n.files req.pod_uid req.container_name file s).0 ≡ ok name
      → (stamp : String) × ((n.files.timestamp s).0 ≡ ok stamp)
        × (name ≡ artifact_name req stamp <> ".tar")
  unfolding copy_to_shared_storage
  copy_stamp file name s h =
      yields_of_answer (λ stamp a. a ≡ artifact_name req stamp <> ".tar") (λ e. e) (stamped file)
        (stamped-Yields file) n.files.timestamp s name h

  copy-Yields :
      (file : String)
      → Yields Named (copy_to_shared_storage n.files req.pod_uid req.container_name file)
  copy-Yields file = record {
    at = λ s name h. let (stamp, told, same) = copy_stamp file name s h in (stamp, s, told, same);
  }

  pub copy_name_lem :
      (file stamp name : String) (s : S)
      → (n.files.timestamp s).0 ≡ ok stamp
      → (copy_to_shared_storage n.files req.pod_uid req.container_name file s).0 ≡ ok name
      → name ≡ artifact_name req stamp <> ".tar"
  copy_name_lem file stamp name s e h =
      let (x, told, named) = copy_stamp file name s h in
      let same : x ≡ stamp = cc in named ∙ ap (λ y. artifact_name req y <> ".tar") same

  first_file-Yields : (files : List String) → Yields Reports (first_file n req files)
  unfolding first_file publish_artifact
  first_file-Yields [] = Yields-pure _ (Reports-failure "no checkpoint files created")
  first_file-Yields (file ∷ files) =
      Yields-caught Named _ _ _ (copy-Yields file) (λ e. Yields-pure _ (λ h. inr (file, refl)))
        (λ path named. Yields-pure _ (λ h. inl (path, named, refl)))

  Reports-caught :
      {A : Type 0} (text : String) (m : Action S A) (f : A → Action S CheckpointResponse)
      → ((a : A) → Yields Reports (f a))
      → Yields Reports (attempt m (λ e. pure (failure (text <> e.text))) f)
  Reports-caught text m f y =
      let h : Error → Action S CheckpointResponse = λ e. pure (failure (text <> e.text)) in
      Yields-attempt m h f
        (λ e. Yields-pure (failure (text <> e.text)) (Reports-failure (text <> e.text))) y

  checkpoint-Yields : (node : String) → Yields Reports (checkpoint n node req)
  unfolding checkpoint
  checkpoint-Yields node =
      Reports-caught "failed to create checkpoint directory: "
        (n.mkdir_all "/var/lib/kubelet/checkpoints") _
        λ _. Reports-caught "failed to create TLS client: " (make_tls_client n) _ λ client.
          Reports-caught "checkpoint failed: "
            (do_checkpoint_with_backoff n client (checkpoint_url n node req)) (first_file n req)
            (first_file-Yields)

-- A checkpoint that the server reports as done has the URI of a file: on the shared mount, named for
-- the pod, the container and the time, or on the node itself.
pub checkpoint-Artifact :
    {S : Type 0} (n : NodeCalls S) (node : String) (req : CheckpointRequest)
    (resp : CheckpointResponse) (s s₁ : S)
    → checkpoint n node req s ≡ (ok resp, s₁)
    → resp.success ≡ true
    → Artifact n req resp.artifact_uri
checkpoint-Artifact {S} n node req resp s s₁ e =
    (checkpoint-Yields n req node).at s resp (ap (λ (x : Outcome CheckpointResponse × S). x.0) e)

-- What a copy on the shared mount is published as, the agent that converts it reads on the mount
-- under the name that it was written to, and the reconciler names its image by it.
pub shared_uri-roundtrip :
    {S : Type 0} (n : NodeCalls S) (name : String)
    → (local_path n ("shared://" <> (name <> ".tar"))
        ≡ n.files.join "/mnt/checkpoints" (name <> ".tar"))
      × (image_name ("shared://" <> (name <> ".tar")) ≡ "localhost/checkpoint:" <> name)
unfolding local_path image_name
shared_uri-roundtrip n name = (
  rw (has_prefix-append "shared://" (name <> ".tar"))
      (rw (trim_prefix-append "shared://" (name <> ".tar")) refl),
  rw (trim_prefix-append "shared://" (name <> ".tar")) (rw (trim_suffix-append name ".tar") refl),
)
