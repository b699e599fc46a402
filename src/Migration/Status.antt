-- ===== src/Migration/Status.antt =====
-- The status writes of a PodMigration.
use live_pod_migration.Base.{String}
use live_pod_migration.Effect.{Action, pure, ◌>>◌}
use live_pod_migration.Api.Lpm.{
  MigrationPhase, PodMigration, unset, pending, checkpointing, checkpoint_complete,
  preparing_images, restoring, succeeded, failed, other_phase,
}
use live_pod_migration.World.{World}
use live_pod_migration.Reconcile.{ReconcileResult, done}

abbrev pub with_phase : PodMigration → MigrationPhase → String → PodMigration
with_phase m phase message = record m {
  status = record (m.status) { phase = phase; message = message };
}

-- `return ctrl.Result{}, r.updatePhase(ctx, podMigration, phase, message)`
-- `if podMigration.Status.Phase == "" { … = MigrationPhasePending }`
abbrev pub default_phase : MigrationPhase → MigrationPhase
default_phase unset = pending
default_phase pending = pending
default_phase checkpointing = checkpointing
default_phase checkpoint_complete = checkpoint_complete
default_phase preparing_images = preparing_images
default_phase restoring = restoring
default_phase succeeded = succeeded
default_phase failed = failed
default_phase (other_phase s) = other_phase s

-- the migration with its phase defaulted
abbrev pub defaulted : PodMigration → PodMigration
defaulted m = record m { status = record (m.status) { phase = default_phase m.status.phase } }

module _ {S : Type 0} (w : World S) where
  unfoldable pub update_phase : PodMigration → MigrationPhase → String → Action S ReconcileResult
  update_phase m phase message = do w.update_migration (with_phase m phase message); pure done
