-- ===== src/Manager/Controllers.antt =====
-- `SetupWithManager` of the three reconcilers.
use live_pod_migration.World.{World}
use live_pod_migration.Migration.{reconcile as reconcile_migration}
use live_pod_migration.PodCheckpoint.{reconcile as reconcile_pod_checkpoint}
use live_pod_migration.ContainerCheckpoint.{reconcile as reconcile_container_checkpoint}
use live_pod_migration.Manager.Host.{Controller}

module _ {T : Type 0} (w : World T) where
  abbrev pub migration_controller : Controller T
  migration_controller = record {
    for_kind = "PodMigration";
    named = "podmigration";
    reconciler = reconcile_migration w;
  }

  abbrev pub pod_checkpoint_controller : Controller T
  pod_checkpoint_controller = record {
    for_kind = "PodCheckpoint";
    named = "podcheckpoint";
    reconciler = reconcile_pod_checkpoint w;
  }

  abbrev pub container_checkpoint_controller : Controller T
  container_checkpoint_controller = record {
    for_kind = "ContainerCheckpoint";
    named = "containercheckpoint";
    reconciler = reconcile_container_checkpoint w;
  }
