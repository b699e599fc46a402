-- ===== src/Tests/Runs.antt =====
-- The theorems of the reconcilers at concrete clusters.
use live_pod_migration.Base.{◌≡◌, refl, true, none, some, List, [], ◌∷◌, ◌++◌, map, ◌↔◌, ◌≢◌, ◌==◌}
use live_pod_migration.Effect.{ok, pure, ◌>>◌}
use live_pod_migration.Api.Lpm.{
  MigrationPhase, PodMigration, pending, running, failed, ContainerCheckpoint,
}
use live_pod_migration.World.Trace.{traced, untraced, called_checkpoint, called_convert}
use live_pod_migration.Reconcile.{key, requeue}
use live_pod_migration.Tests.Cluster.{Cluster, memory}
use live_pod_migration.Tests.Objects.{
  pod, container, migration, both_images, pod_content, child, quiet, restored, checkpointed,
  app_and_log,
}
use live_pod_migration.Base.Maps.{StringMap, lookup, insert}
use live_pod_migration.Base.Text.{contains, has_prefix, has_suffix, trim_prefix, trim_suffix}
use live_pod_migration.AgentClient.Closing.{Closed, calls-Closed}
use live_pod_migration.AgentClient.{
  checkpoint_container, convert_checkpoint_to_image, internal_endpoint,
}
use live_pod_migration.Api.Core.{Pod, pull_never}
use live_pod_migration.Migration.Status.{with_phase}
use live_pod_migration.Migration.Images.{with_images, prepare_all, prepare_images}
use live_pod_migration.Migration.Images.Loop.{Extends, HasImages, prepare_all_prepares}
use live_pod_migration.Migration.Images.Count.{prepare_images_restores}
use live_pod_migration.Migration.Restore.{relocated, restored_pod}
use live_pod_migration.Migration.Restore.Copy.{IsCopy, restored_pod-IsCopy}
use live_pod_migration.Migration.Restore.Handoff.{prepare_all_restorable}
use live_pod_migration.Migration.Diagram.{Follows}
use live_pod_migration.Migration.Deletion.{Guarded, reconcile-Guarded}
use live_pod_migration.Migration.Phases.{reconcile-Follows}
use live_pod_migration.Migration.{reconcile}
use live_pod_migration.PodCheckpoint.Phases.{IsJustified, reconcile-IsJustified}
use live_pod_migration.ContainerCheckpoint.Phases.{IsEarned, reconcile-IsEarned}
use live_pod_migration.ContainerCheckpoint.Made.{Recorded}
use live_pod_migration.ContainerCheckpoint.Recorded.{reconcile-Recorded}
use live_pod_migration.PodCheckpoint.Verdict.Laws.{
  AllBound, content_ref, tally_complete, tally_failure,
}
use live_pod_migration.PodCheckpoint.{tally}
use live_pod_migration.ContainerCheckpoint
use live_pod_migration.PodCheckpoint

reconcile-Guarded_example :
    Guarded (reconcile (traced memory) (key "shop" "move") (untraced restored)).1.log
reconcile-Guarded_example = reconcile-Guarded memory (key "shop" "move") (untraced restored) tt

reconcile-Follows_example :
    Follows (reconcile (traced memory) (key "shop" "move") (untraced restored)).1.log
reconcile-Follows_example = reconcile-Follows memory (key "shop" "move") (untraced restored) tt

reconcile-IsJustified_example :
    IsJustified
      (PodCheckpoint.reconcile (traced memory) (key "shop" "move") (untraced checkpointed)).1.log
reconcile-IsJustified_example =
    reconcile-IsJustified memory (key "shop" "move") (untraced checkpointed) tt

abbrev one_child : Cluster
one_child = record quiet { container_checkpoints = child "app" pending "" ∷ [] }

reconcile-IsEarned_example :
    IsEarned
      (ContainerCheckpoint.reconcile
        (traced memory)
        (key "shop" "move-app")
        (untraced one_child)).1.log
reconcile-IsEarned_example =
    reconcile-IsEarned memory (key "shop" "move-app") (untraced one_child) tt

-- its checkpoint is being made
abbrev one_accepted : Cluster
one_accepted = record one_child { container_checkpoints = child "app" running "" ∷ [] }

reconcile-Recorded_example :
    Recorded
      (ContainerCheckpoint.reconcile
        (traced memory)
        (key "shop" "move-app")
        (untraced one_accepted)).1.log
reconcile-Recorded_example =
    reconcile-Recorded memory (key "shop" "move-app") (untraced one_accepted) tt

tally_complete_example :
    (((tally checkpointed.container_checkpoints).all_done ≡ true)
      × ((tally checkpointed.container_checkpoints).all_succeeded ≡ true))
    ↔ (AllBound checkpointed.container_checkpoints
        × ((tally checkpointed.container_checkpoints).contents
            ≡ map content_ref checkpointed.container_checkpoints))
tally_complete_example = tally_complete checkpointed.container_checkpoints

abbrev failed_then_running : List ContainerCheckpoint
failed_then_running = [] ++ child "app" failed "" ∷ child "log" running "" ∷ []

tally_failure_example :
    ((tally failed_then_running).all_succeeded ≢ true)
    × (((tally failed_then_running).all_done ≡ true) ↔ AllBound (child "log" running "" ∷ []))
tally_failure_example =
    tally_failure [] (child "log" running "" ∷ []) (child "app" failed "") refl ((λ e. cc), tt)

abbrev to_restore : PodMigration
to_restore = migration MigrationPhase.restoring "" (some both_images)

abbrev web_restored : Pod
web_restored = record (relocated memory to_restore (pod "web")) {
  spec = record ((relocated memory to_restore (pod "web")).spec) {
    containers =
        record (container "app") {
          image = "localhost/checkpoint:web-app";
          image_pull_policy = pull_never;
        }
        ∷ record (container "log") {
          image = "localhost/checkpoint:web-log";
          image_pull_policy = pull_never;
        }
        ∷ [];
  };
}

restored_pod-IsCopy_example : IsCopy memory to_restore both_images (pod "web") web_restored
unfolding restored_pod lookup insert ◌==◌
restored_pod-IsCopy_example =
    restored_pod-IsCopy memory to_restore both_images (pod "web") web_restored refl refl

-- a migration whose images are to be made, and the cluster that has their checkpoints
abbrev to_prepare : PodMigration
to_prepare = migration MigrationPhase.preparing_images "" none

abbrev prepared : PodMigration
prepared = migration MigrationPhase.preparing_images "" (some both_images)

abbrev written : Cluster
written = record checkpointed { migrations = prepared ∷ [] }

prepare_images_restores_example :
    prepare_images memory to_prepare pod_content (pod "web") checkpointed
    ≡ (memory.update_migration (
            with_phase prepared MigrationPhase.restoring
              "checkpoint images ready, creating restored pod")
          >> pure (requeue 1))
        written
unfolding prepare_all lookup insert contains has_prefix trim_prefix has_suffix trim_suffix
    convert_checkpoint_to_image internal_endpoint ◌==◌
prepare_images_restores_example =
    prepare_images_restores memory to_prepare prepared prepared pod_content (pod "web") checkpointed
      checkpointed written (refl, (refl, tt)) refl refl refl refl

prepare_all_restorable_example :
    (q : Pod) × (restored_pod memory prepared (pod "web") ≡ ok q)
    × IsCopy memory prepared both_images (pod "web") q
unfolding prepare_all lookup insert contains has_prefix trim_prefix has_suffix trim_suffix
    convert_checkpoint_to_image internal_endpoint ◌==◌
prepare_all_restorable_example =
    prepare_all_restorable memory to_prepare prepared prepared pod_content (pod "web") checkpointed
      checkpointed refl refl

prepare_all_prepares_example :
    (images : StringMap) × (prepared ≡ with_images to_prepare images)
    × Extends [] images
    × (true ≡ true → (true ≡ true) × HasImages images app_and_log)
unfolding prepare_all lookup insert contains has_prefix trim_prefix has_suffix trim_suffix
    convert_checkpoint_to_image internal_endpoint ◌==◌
prepare_all_prepares_example =
    prepare_all_prepares memory pod_content app_and_log to_prepare prepared [] true true
      checkpointed checkpointed refl

calls-Closed_example :
    let made =
      checkpoint_container (traced memory) "node-a" "shop" "web" "app" "u-1" (untraced quiet) in
    let converted =
      convert_checkpoint_to_image (traced memory) "node-a" "shop" "web" "app" (untraced quiet) in
    Closed
      (λ conn. called_checkpoint conn (record {
        pod_namespace = "shop";
        pod_name = "web";
        container_name = "app";
        pod_uid = "u-1";
      }))
      (λ resp uri. (resp.success ≡ true) × (uri ≡ resp.artifact_uri))
      []
      made.0
      made.1.log
    × Closed
        (λ conn.
          called_convert conn
            (record { checkpoint_path = "shop"; container_name = "web"; image_name = "app" }))
        (λ resp image. (resp.success ≡ true) × (image ≡ resp.image_reference))
        []
        converted.0
        converted.1.log
calls-Closed_example = calls-Closed memory "node-a" "shop" "web" "app" "u-1" (untraced quiet)
