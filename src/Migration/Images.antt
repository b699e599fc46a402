-- ===== src/Migration/Images.antt =====
-- `handlePreparingImagesPhase`: each container of the original pod gets an image made of its
-- checkpoint.
pub mod Loop
pub mod Count
pub mod Paths
pub mod Writes
use live_pod_migration.Base.{
  String, ◌<>◌, Bool, true, false, Option, none, some, List, [], ◌∷◌, ◌==◌, ◌&&◌, if◌then◌else◌,
  length, nat_eq,
}
use live_pod_migration.Base.Text.{has_prefix, trim_prefix, trim_suffix, contains}
use live_pod_migration.Base.Maps.{StringMap, lookup, insert}
use live_pod_migration.Effect.{Action, new_error, wrap, pure, raise, attempt, ◌>>=◌, ◌>>◌, maybe}
use live_pod_migration.Api.Core.{Container, LocalObjectReference, Pod}
use live_pod_migration.Api.Lpm.{PodMigration, PodCheckpointContent, restoring, failed}
use live_pod_migration.World.{World}
use live_pod_migration.AgentClient.{convert_checkpoint_to_image}
use live_pod_migration.Reconcile.{ReconcileResult, requeue, key}
use live_pod_migration.Migration.Status.{with_phase, update_phase}

-- the entries of the status' map; the nil map has none
abbrev pub entries : Option StringMap → StringMap
entries none = []
entries (some images) = images

abbrev pub images_of : PodMigration → StringMap
images_of m = entries m.status.checkpoint_images

abbrev pub with_images : PodMigration → StringMap → PodMigration
with_images m images = record m { status = record (m.status) { checkpoint_images = some images } }

-- How the loop over the containers ends: by the return in it, or with the migration and
-- `imagesReady`.
pub data LoopEnd : Type 0 where
  returned : ReconcileResult → LoopEnd
  finished : PodMigration → Bool → LoopEnd

-- the OCI image's name, from `shared://<filename>`
unfoldable pub image_name : String → String
image_name uri = "localhost/checkpoint:" <> trim_suffix (trim_prefix uri "shared://") ".tar"

module _ {S : Type 0} (w : World S) where
  unfoldable pub get_checkpoint_content : PodMigration → Action S PodCheckpointContent
  get_checkpoint_content m =
      maybe m.status.pod_checkpoint_ref
        (raise (new_error "no checkpoint reference in migration status"))
        λ ref.
          attempt (w.get_pod_checkpoint (key m.meta.namespace ref.name))
            (λ e. raise (wrap "failed to get pod checkpoint: " e))
            λ pc.
              if pc.status.bound_content_name == ""
              then raise (new_error "checkpoint has no bound content")
              else attempt (w.get_pod_content (key m.meta.namespace pc.status.bound_content_name))
                  (λ e. raise (wrap "failed to get checkpoint content: " e)) pure

  -- The loop of `getCheckpointPathForContainer`: any error of `Get` is passed over.
  pub path_in : String → String → List LocalObjectReference → Action S String
  path_in namespace container [] = pure ""
  path_in namespace container (ref ∷ refs) =
      let rest = path_in namespace container refs in
      attempt (w.get_container_content (key namespace ref.name)) (λ _. rest)
        (λ content.
          if contains content.meta.name container then pure content.spec.artifact_uri else rest)

  unfoldable pub get_checkpoint_path_for_container : PodCheckpointContent → String → Action S String
  unfolding path_in
  get_checkpoint_path_for_container content container =
      path_in content.meta.namespace container content.spec.container_contents

  -- URI, container, target node
  unfoldable pub convert_to_oci_image : String → String → String → Action S String
  unfolding image_name
  convert_to_oci_image uri container target =
      if has_prefix uri "shared://"
      then attempt (convert_checkpoint_to_image w target uri container (image_name uri))
          (λ e. raise (wrap "failed to convert checkpoint to OCI image: " e)) pure
      else pure uri

  -- a container without an image, whose checkpoint path is known
  unfoldable pub convert_one : PodMigration → Bool → String → String → Action S LoopEnd
  unfolding convert_to_oci_image
  convert_one m ready container path =
      attempt (convert_to_oci_image path container m.spec.target_node)
        (λ _. pure (finished m false))
        (λ image. pure (finished (with_images m (insert container image (images_of m))) ready))

  -- one round of the loop
  unfoldable pub prepare_one :
      PodCheckpointContent → PodMigration → Bool → Container → Action S LoopEnd
  unfolding get_checkpoint_path_for_container convert_one
  prepare_one content m ready c =
      maybe (lookup c.name (images_of m))
        (get_checkpoint_path_for_container content c.name >>= λ path.
          if path == ""
          then (do
            r ← update_phase w m failed ("no checkpoint found for container " <> c.name)
            pure (returned r))
          else convert_one m ready c.name path)
        (λ _. pure (finished m ready))

  abbrev pub go_on : (PodMigration → Bool → Action S LoopEnd) → LoopEnd → Action S LoopEnd
  go_on next (returned r) = pure (returned r)
  go_on next (finished m ready) = next m ready

  unfoldable pub prepare_all :
      PodCheckpointContent → List Container → PodMigration → Bool → Action S LoopEnd
  unfolding prepare_one
  prepare_all content [] m ready = pure (finished m ready)
  prepare_all content (c ∷ containers) m ready =
      prepare_one content m ready c >>= go_on (prepare_all content containers)

  -- what follows the loop
  unfoldable pub finish_images : List Container → PodMigration → Bool → Action S ReconcileResult
  finish_images containers m ready = do
    m' ← w.update_migration m
    if ready && nat_eq (length (images_of m')) (length containers)
        then (do
          w.update_migration
              (with_phase m' restoring "checkpoint images ready, creating restored pod")
          pure (requeue 1))
        else pure (requeue 3)

  abbrev after_loop : List Container → LoopEnd → Action S ReconcileResult
  after_loop containers (returned r) = pure r
  after_loop containers (finished m ready) = finish_images containers m ready

  -- with the content and the original pod at hand; a nil map is made first
  pub prepare_images : PodMigration → PodCheckpointContent → Pod → Action S ReconcileResult
  unfolding prepare_all finish_images
  prepare_images m content pod =
      prepare_all content pod.spec.containers (with_images m (images_of m)) true
      >>= after_loop pod.spec.containers

  unfoldable pub handle_preparing_images : PodMigration → Action S ReconcileResult
  unfolding get_checkpoint_content prepare_images
  handle_preparing_images m =
      attempt (get_checkpoint_content m)
        (λ e. update_phase w m failed ("failed to get checkpoint content: " <> e.text))
        λ content.
          attempt (w.get_pod (key m.meta.namespace m.spec.pod_name))
            (λ e. update_phase w m failed ("failed to get original pod: " <> e.text))
            (prepare_images m content)
