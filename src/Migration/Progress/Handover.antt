-- ===== src/Migration/Progress/Handover.antt =====
-- From the reconciler of the PodCheckpoint to that of the migration.
use live_pod_migration.Base.{◌≡◌, Option, some}
use live_pod_migration.Api.Core.{ObjectKey, Pod}
use live_pod_migration.Api.Lpm.{PodMigration, PodCheckpoint}
use live_pod_migration.World.{World}
use live_pod_migration.World.Working.{Stored}
use live_pod_migration.Reconcile.{key}
use live_pod_migration.PodCheckpoint.Progress
use live_pod_migration.PodCheckpoint.Progress.{CheckpointRounds}
use live_pod_migration.PodCheckpoint.Progress.Steps.{CheckpointRounds-Reached}
use live_pod_migration.Migration.Progress.{WorkingServer, Reached, checkpointing, checkpointed}
use live_pod_migration.Migration.Progress.Steps.{checkpointing-Held}
use live_pod_migration.Migration.{checkpoint_name, reconcile}

-- Four rounds of a PodCheckpoint set its migration free. Let the server work for a migration and for the
-- PodCheckpoint that it names, and let nobody else write these. If the PodCheckpoint, requested at first,
-- has had four rounds, each when what it waits for had come about, and the migration waits for it then,
-- a reconcile of the migration takes it to `checkpoint_complete`, whatever else happened in between.
pub CheckpointRounds-Handover :
    {S : Type 0} {w : World S} {k : ObjectKey} {stored : S → Option PodMigration}
    {stored_checkpoint : S → Option PodCheckpoint} (server : WorkingServer w k stored)
    (source : Pod) (m : PodMigration)
    (checkpoints : Progress.WorkingServer w
      (key m.meta.namespace (checkpoint_name w m))
      stored_checkpoint)
    (pc : PodCheckpoint) (s t : S)
    → stored_checkpoint s ≡ some pc
    → Progress.Reached Progress.requested pc.status
    → CheckpointRounds w stored_checkpoint
        (key m.meta.namespace (checkpoint_name w m))
        Progress.requested
        s
        4
        t
    → stored t ≡ some m
    → Reached source checkpointing m.status
    → Stored stored (λ m'. Reached source checkpointed m'.status) (reconcile w k t).1
CheckpointRounds-Handover server source m checkpoints pc s t held first rounds waits reached =
    let (done, there, (succeeded, ready)) =
      CheckpointRounds-Reached checkpoints Progress.requested pc s t 4 held first rounds in
    checkpointing-Held server source m t waits reached (record {
      checkpoint = done;
      checkpoint_read = checkpoints.works.read done t there;
      succeeded = succeeded;
      ready = ready;
    })
