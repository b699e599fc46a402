-- ===== src/Migration/Restore.antt =====
-- `handleRestoringPhase`: the restored pod is created, watched until it runs, and the original one
-- is then deleted.
pub mod Writes
pub mod Copy
pub mod Handoff
use live_pod_migration.Base.{String, ◌<>◌, Option, none, some, List, [], ◌∷◌, ◌==◌, if◌then◌else◌}
use live_pod_migration.Base.Maps.{StringMap, lookup, insert}
use live_pod_migration.Effect.{
  Action, Outcome, ok, err, panic, new_error, wrap, is_not_found, is_already_exists, pure, raise,
  attempt, ◌>>◌, on_not_found, maybe,
}
use live_pod_migration.Api.Core.{Container, Pod, PodPhase, pull_never}
use live_pod_migration.Api.Lpm.{PodMigration, succeeded, failed}
use live_pod_migration.World.{World}
use live_pod_migration.Reconcile.{ReconcileResult, requeue, key}
use live_pod_migration.Migration.Status.{update_phase}
use live_pod_migration.Migration.Images.{entries}

-- one round of the loop over the containers: the image of the container, and what the rest gives
pub swap_image : Container → Option String → Outcome (List Container) → Outcome (List Container)
swap_image c none rest = err (new_error ("no checkpoint image prepared for container " <> c.name))
swap_image c (some image) (ok cs) =
    ok (record c { image = image; image_pull_policy = pull_never } ∷ cs)
swap_image c (some image) (err e) = err e
swap_image c (some image) panic = panic

pub apply_images : StringMap → List Container → Outcome (List Container)
unfolding swap_image
apply_images images [] = ok []
apply_images images (c ∷ containers) =
    swap_image c (lookup c.name images) (apply_images images containers)

-- the copy with the containers that the loop gave
pub with_containers : Pod → Outcome (List Container) → Outcome Pod
with_containers pod (ok cs) = ok (record pod { spec = record (pod.spec) { containers = cs } })
with_containers pod (err e) = err e
with_containers pod panic = panic

module _ {S : Type 0} (w : World S) where
  -- The copy of the original pod, up to the images.
  pub relocated : PodMigration → Pod → Pod
  relocated m pod = record pod {
    meta = record (pod.meta) {
      name = pod.meta.name <> "-restored";
      resource_version = "";
      uid = "";
      annotations = some (
          insert "migration.target-node" m.spec.target_node
            (insert "migration.source-pod" pod.meta.name (entries pod.meta.annotations)));
      owner_references = w.controller_ref m.meta "PodMigration" ∷ [];
    };
    spec = record (pod.spec) { node_name = m.spec.target_node };
  }

  -- what `createRestoredPod` makes of the original pod
  unfoldable pub restored_pod : PodMigration → Pod → Outcome Pod
  unfolding relocated apply_images with_containers
  restored_pod m pod =
      let copy = relocated m pod in
      maybe m.status.checkpoint_images
        (err (new_error "checkpoint images not prepared for migration"))
        (λ images. with_containers copy (apply_images images copy.spec.containers))

  unfoldable pub create_restored_pod : PodMigration → Action S Pod
  unfolding restored_pod
  create_restored_pod m =
      attempt (w.get_pod (key m.meta.namespace m.spec.pod_name))
        (λ e. raise (wrap "failed to get original pod: " e)) (λ pod s. (restored_pod m pod, s))

  -- the status write after the creation
  unfoldable pub record_restored : PodMigration → String → Action S ReconcileResult
  record_restored m name = do
    w.update_migration (record m {
      status = record (m.status) { restored_pod_name = name; message = "restored pod created" };
    })
    pure (requeue 5)

  -- the branch of a migration with no restored pod yet
  unfoldable pub start_restore : PodMigration → Action S ReconcileResult
  unfolding create_restored_pod record_restored
  start_restore m =
      attempt (create_restored_pod m)
        (λ e. update_phase w m failed ("failed to create restored pod: " <> e.text))
        λ pod.
          attempt (w.create_pod pod)
            (λ e.
              if is_already_exists e
              then record_restored m pod.meta.name
              else update_phase w m failed ("failed to create restored pod: " <> e.text))
            (λ created. record_restored m created.meta.name)

  unfoldable pub delete_original_pod : PodMigration → Action S (Unit {0})
  delete_original_pod m =
      attempt (w.get_pod (key m.meta.namespace m.spec.pod_name))
        (λ e.
          if is_not_found e
          then pure tt
          else raise (wrap "failed to get original pod for deletion: " e))
        (λ pod.
          attempt (w.delete_pod pod) (λ e. raise (wrap "failed to delete original pod: " e)) pure)

  -- the `switch` on the restored pod's phase
  unfoldable pub follow_restored : PodMigration → PodPhase → Action S ReconcileResult
  unfolding delete_original_pod
  follow_restored m PodPhase.running =
      let finish = update_phase w m succeeded "pod successfully restored and running" in
      attempt (delete_original_pod m) (λ _. finish) (λ _. finish)
  follow_restored m PodPhase.failed = update_phase w m failed "restored pod failed to start"
  follow_restored m PodPhase.pending = pure (requeue 5)
  follow_restored m PodPhase.succeeded = pure (requeue 5)
  follow_restored m PodPhase.unknown = pure (requeue 5)

  unfoldable pub watch_restored : PodMigration → Action S ReconcileResult
  unfolding follow_restored
  watch_restored m =
      on_not_found (w.get_pod (key m.meta.namespace m.status.restored_pod_name))
        (update_phase w m failed "restored pod not found")
        (λ pod. follow_restored m pod.status.phase)

  unfoldable pub handle_restoring : PodMigration → Action S ReconcileResult
  unfolding start_restore watch_restored
  handle_restoring m =
      if m.status.restored_pod_name == "" then start_restore m else watch_restored m
