-- ===== src/Migration/Progress/Completes.antt =====
-- The rounds of a migration, one after the other.
use live_pod_migration.Base.{ℕ, ◌≡◌, ap, Option, some}
use live_pod_migration.Api.Core.{ObjectKey, Pod}
use live_pod_migration.Api.Lpm.{MigrationPhase, PodMigration}
use live_pod_migration.World.{World}
use live_pod_migration.World.Working.{Stored, Rounds-Stored}
use live_pod_migration.Migration.Status.{default_phase}
use live_pod_migration.Migration.Progress.{
  WorkingServer, Stage, requested, checkpointing, checkpointed, preparing, restoring, starting,
  completed, next, after, Reached, Enabled, MigrationRounds,
}
use live_pod_migration.Migration.Progress.Steps.{
  Held, after_read, requested-Held, checkpointing-Held, checkpointed-Held,
}
use live_pod_migration.Migration.Progress.Restored.{preparing-Held, restoring-Held, starting-Held}
use live_pod_migration.Migration.{dispatch, handle_completed_or_failed, reconcile}

module _ {S : Type 0} {w : World S} {k : ObjectKey} {stored : S → Option PodMigration}
    (server : WorkingServer w k stored) (source : Pod) where
  completed-Held :
      (m : PodMigration) (s : S)
      → stored s ≡ some m
      → Reached source completed m.status
      → Held server source completed (reconcile w k s).1
  unfolding dispatch handle_completed_or_failed
  completed-Held m s held phase =
      rw (after_read server source m MigrationPhase.succeeded s held (ap default_phase phase))
        (m, held, phase)

  reconcile-Held :
      (stage : Stage) (m : PodMigration) (s : S)
      → stored s ≡ some m
      → Reached source stage m.status
      → Enabled w stored source stage m s
      → Held server source (next stage) (reconcile w k s).1
  reconcile-Held requested m s held reached e = requested-Held server source m s held reached e
  reconcile-Held checkpointing m s held reached e =
      checkpointing-Held server source m s held reached e
  reconcile-Held checkpointed m s held reached e = checkpointed-Held server source m s held reached
  reconcile-Held preparing m s held reached e = preparing-Held server source m s held reached e
  reconcile-Held restoring m s held reached e = restoring-Held server source m s held reached e
  reconcile-Held starting m s held reached e = starting-Held server source m s held reached e
  reconcile-Held completed m s held reached e = completed-Held m s held reached

-- A migration gets on. Let the server work for it, let nobody else write it, and let it be requested: its
-- phase empty or pending, no checkpoint and no restored pod recorded, and no image but of the source
-- pod's containers. Then every round takes it to the next stage, if it is reconciled when what its stage
-- waits for has come about: after six rounds it is `succeeded`, and it stays so.
pub Rounds-Reached :
    {S : Type 0} {w : World S} {k : ObjectKey} {stored : S → Option PodMigration}
    (server : WorkingServer w k stored) (source : Pod) (m : PodMigration) (s t : S) (n : ℕ)
    → stored s ≡ some m
    → Reached source requested m.status
    → MigrationRounds w stored source k s n t
    → Stored stored (λ m'. Reached source (after n) m'.status) t
Rounds-Reached {w = w} {k = k} {stored = stored} server source m s t n held reached rounds =
    Rounds-Stored (λ u. (reconcile w k u).1) stored (λ i. Enabled w stored source (after i))
      (λ i m'. Reached source (after i) m'.status) s t n
      (λ i m' u held' reached' e. reconcile-Held server source (after i) m' u held' reached' e)
      (m, held, reached) rounds
