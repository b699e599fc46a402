-- ===== src/Migration.antt =====
-- internal/controller/podmigration_controller.go: the reconciler of a PodMigration. The phases
-- before the images are here, the others in the children.
pub mod Status
pub mod Diagram
pub mod Images
pub mod Restore
pub mod Handlers
pub mod Phases
pub mod Deletion
pub mod Store
pub mod Progress
use live_pod_migration.Base.{
  String, ◌<>◌, Bool, true, false, Option, none, some, List, [], ◌∷◌, ◌==◌, if◌then◌else◌,
}
use live_pod_migration.Effect.{Action, pure, raise, attempt, ◌>>=◌, ◌>>◌, on_not_found, maybe}
use live_pod_migration.Api.Core.{ObjectKey}
use live_pod_migration.Api.Lpm.{
  CheckpointPhase, MigrationPhase, PodMigration, PodCheckpoint, unset, pending, running,
  checkpointing, checkpoint_complete, preparing_images, restoring, succeeded, failed, other_phase,
}
use live_pod_migration.World.{World}
use live_pod_migration.Reconcile.{ReconcileResult, done, requeue, key, new_meta, is_running}
use Status.{with_phase, update_phase, default_phase, defaulted}
use Images.{handle_preparing_images}
use Restore.{handle_restoring}

module _ {S : Type 0} (w : World S) where
  -- the PodCheckpoint that both handlers below create
  abbrev pub new_checkpoint : PodMigration → String → PodCheckpoint
  new_checkpoint m name = record {
    meta = record (new_meta m.meta.namespace name) {
      owner_references = w.controller_ref m.meta "PodMigration" ∷ [];
    };
    spec = record { pod_name = some m.spec.pod_name };
    status = record {
      phase = unset;
      message = "";
      ready = false;
      bound_content_name = "";
      creation_time = none;
      completion_time = none;
    };
  }

  abbrev with_checkpoint_ref : String → PodMigration → PodMigration
  with_checkpoint_ref name m = record m {
    status = record (m.status) { pod_checkpoint_ref = some (record { name = name }) };
  }

  -- steps 4 and 5 of `handlePendingPhase`
  pub ensure_checkpoint : PodMigration → Action S ReconcileResult
  ensure_checkpoint m =
      on_not_found (w.get_pod_checkpoint (key m.meta.namespace m.meta.name))
        (do
          w.create_pod_checkpoint (new_checkpoint m m.meta.name)
          w.update_migration
              (with_phase (with_checkpoint_ref m.meta.name m) checkpointing "checkpoint requested")
          pure (requeue 2))
        (λ pc. do
          let bound =
              maybe m.status.pod_checkpoint_ref (with_checkpoint_ref pc.meta.name m) (λ _. m)
          w.update_migration (with_phase bound checkpointing "checkpoint in progress")
          pure done)

  -- step 3
  pub check_target : PodMigration → Action S ReconcileResult
  unfolding ensure_checkpoint
  check_target m =
      if m.spec.target_node == ""
      then ensure_checkpoint m
      else on_not_found (w.get_node (key "" m.spec.target_node))
          (update_phase w m failed "target node not found") (λ _. ensure_checkpoint m)

  unfoldable pub handle_pending : PodMigration → Action S ReconcileResult
  unfolding check_target
  handle_pending m =
      on_not_found (w.get_pod (key m.meta.namespace m.spec.pod_name))
        (update_phase w m failed "source pod not found")
        (λ pod.
          if is_running pod
          then check_target m
          else update_phase w m failed "source pod not running")

  -- the name in the status if there is one, and else the migration's
  abbrev pub checkpoint_name : PodMigration → String
  checkpoint_name m =
      maybe m.status.pod_checkpoint_ref m.meta.name
        (λ ref. if ref.name == "" then m.meta.name else ref.name)

  -- the branch of a missing checkpoint
  pub recreate_checkpoint : PodMigration → String → Action S ReconcileResult
  recreate_checkpoint m name = do
    w.create_pod_checkpoint (new_checkpoint m name)
    maybe m.status.pod_checkpoint_ref
        (w.update_migration (with_checkpoint_ref name m) >> pure (requeue 2))
        (λ _. pure (requeue 2))

  -- the `switch` on the checkpoint's phase
  pub follow_checkpoint : PodMigration → CheckpointPhase → PodCheckpoint → Action S ReconcileResult
  follow_checkpoint m failed pc =
      update_phase w m failed ("checkpoint failed: " <> pc.status.message)
  follow_checkpoint m succeeded pc =
      if pc.status.ready
      then w.update_migration (with_phase m checkpoint_complete "checkpoint complete") >> pure done
      else pure (requeue 2)
  follow_checkpoint m unset pc = pure (requeue 2)
  follow_checkpoint m pending pc = pure (requeue 2)
  follow_checkpoint m running pc = pure (requeue 2)
  follow_checkpoint m (other_phase _) pc = pure (requeue 2)

  unfoldable pub handle_checkpointing : PodMigration → Action S ReconcileResult
  unfolding recreate_checkpoint follow_checkpoint
  handle_checkpointing m =
      let name = checkpoint_name m in
      on_not_found (w.get_pod_checkpoint (key m.meta.namespace name)) (recreate_checkpoint m name)
        (λ pc. follow_checkpoint m pc.status.phase pc)

  pub handle_checkpoint_complete : PodMigration → Action S ReconcileResult
  handle_checkpoint_complete m = do
    w.update_migration (with_phase m preparing_images "preparing checkpoint images")
    pure (requeue 1)

  pub handle_completed_or_failed : PodMigration → Action S ReconcileResult
  handle_completed_or_failed m = pure done

  -- the `switch` of `Reconcile`
  unfoldable pub dispatch : MigrationPhase → PodMigration → Action S ReconcileResult
  unfolding handle_pending handle_checkpointing handle_checkpoint_complete
      handle_completed_or_failed
  dispatch unset m = pure done
  dispatch pending m = handle_pending m
  dispatch checkpointing m = handle_checkpointing m
  dispatch checkpoint_complete m = handle_checkpoint_complete m
  dispatch preparing_images m = handle_preparing_images w m
  dispatch restoring m = handle_restoring w m
  dispatch succeeded m = handle_completed_or_failed m
  dispatch failed m = handle_completed_or_failed m
  dispatch (other_phase _) m = pure done

  unfoldable pub reconcile : ObjectKey → Action S ReconcileResult
  unfolding dispatch
  reconcile req =
      on_not_found (w.get_migration req) (pure done)
        λ m. dispatch (default_phase m.status.phase) (defaulted m)
