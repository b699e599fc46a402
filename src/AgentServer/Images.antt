-- ===== src/AgentServer/Images.antt =====
-- convertCheckpointToOCI: an image of a checkpoint file, by buildah.
pub mod Cleanup
use live_pod_migration.Base.{String, ◌<>◌, Option, none, some, List, [], ◌∷◌}
use live_pod_migration.Effect.{Action, Error, new_error, pure, raise, ◌>>=◌, ◌>>◌, finally, maybe}
use live_pod_migration.AgentServer.Host.{Buildah}

module _ {S : Type 0} (b : Buildah S) where
  -- `cmd.Run()`, an error of it under the text (`%v`)
  pub run : String → List String → Action S (Unit {0})
  run text args =
      b.command args >>= λ r. maybe r.1 (pure tt) (λ e. raise (new_error (text <> e.text)))

  -- the three commands on the working container
  unfoldable pub build : String → String → String → String → Action S String
  unfolding run
  build id path container image = do
    run "failed to add checkpoint to container: " ("add" ∷ id ∷ path ∷ "/" ∷ [])
    run "failed to add checkpoint annotation: " (
        "config"
        ∷ ("--annotation=io.kubernetes.cri-o.annotations.checkpoint.name=" <> container)
        ∷ id
        ∷ [])
    run "failed to commit container as image: " ("commit" ∷ id ∷ image ∷ [])
    pure image

  -- what follows `buildah from scratch`; the removal is deferred
  unfoldable pub in_container : String → String → String → String × Option Error → Action S String
  unfolding build
  in_container path container image (output, none) =
      let id = b.trim_space output in
      finally (build id path container image) (b.command ("rm" ∷ id ∷ []))
  in_container path container image (output, some e) =
      raise (new_error ("failed to create working container: " <> e.text <> ", output: " <> output))

  -- checkpoint path, container, image name
  unfoldable pub convert_checkpoint_to_oci : String → String → String → Action S String
  unfolding in_container
  convert_checkpoint_to_oci path container image =
      b.command ("from" ∷ "scratch" ∷ []) >>= in_container path container image
