-- ===== src/Migration/Progress/Steps.antt =====
-- One reconcile at each stage, up to the images.
use live_pod_migration.Base.{
  ◌≡◌, refl, ap, ◌∙◌, inl, inr, Bool, true, false, Option, some, ◌==◌, ==_iff, arith,
}
use live_pod_migration.Effect.{pure, ◌>>◌}
use live_pod_migration.Api.Core.{ObjectKey, Pod}
use live_pod_migration.Api.Lpm.{MigrationPhase, PodMigration}
use live_pod_migration.World.{World}
use live_pod_migration.World.Working.{Works-write, Stored}
use live_pod_migration.Reconcile.{ReconcileResult}
use live_pod_migration.Migration.Status.{default_phase, defaulted}
use live_pod_migration.Migration.Progress.{
  WorkingServer, Stage, requested, checkpointing, checkpointed, preparing, Reached, Startable,
  Checkpointed,
}
use live_pod_migration.Migration.{
  dispatch, reconcile, handle_pending, check_target, ensure_checkpoint, handle_checkpointing,
  follow_checkpoint, handle_checkpoint_complete,
}

module _ {S : Type 0} {w : World S} {k : ObjectKey} {stored : S → Option PodMigration}
    (server : WorkingServer w k stored) (source : Pod) where
  -- the stored migration is at a stage
  abbrev pub Held : Stage → S → Type 0
  Held stage = Stored stored (λ m. Reached source stage m.status)

  pub after_read :
      (m : PodMigration) (p : MigrationPhase) (s : S)
      → stored s ≡ some m
      → default_phase m.status.phase ≡ p
      → reconcile w k s ≡ dispatch w p (defaulted m) s
  unfolding reconcile
  after_read m p s held e =
      rw (server.works.read m s held) (ap (λ q. dispatch w q (defaulted m) s) e)

  -- a status write ends at the stage that it writes
  pub after_write :
      (m old : PodMigration) (stage : Stage) (r : ReconcileResult) (s : S)
      → stored s ≡ some old
      → m.meta ≡ old.meta
      → Reached source stage m.status
      → Held stage ((w.update_migration m >> pure r) s).1
  after_write m old stage r s held same reached =
      Works-write server.works (Reached source stage) m old r s held same reached

  ensured :
      (m : PodMigration) (s : S)
      → stored s ≡ some m
      → Reached source requested m.status
      → Startable w stored source m s
      → Held checkpointing (ensure_checkpoint w (defaulted m) s).1
  unfolding ensure_checkpoint
  ensured m s held (phase, fresh, early) start = elim start.checkpoint [
    | inl (pc, read) ↦ rw read (
        rw fresh (
          after_write _ m checkpointing _ s held refl
            (refl, (record { name = pc.meta.name }, refl), early)))
    | inr (e, pc, s₁, read, missing, made, same) ↦ rw read (
        rw missing (
          rw made (
            after_write _ m checkpointing _ s₁ (same ∙ held) refl
              (refl, (record { name = m.meta.name }, refl), early))))
  ]

  targeted :
      (m : PodMigration) (s : S) (local : Bool)
      → (m.spec.target_node == "") ≡ local
      → stored s ≡ some m
      → Reached source requested m.status
      → Startable w stored source m s
      → Held checkpointing (check_target w (defaulted m) s).1
  unfolding check_target
  targeted m s true e held reached start = rw e (ensured m s held reached start)
  targeted m s false e held reached start = elim start.node_read [
    | inl empty ↦ absurd (ground (arith, e, empty, ==_iff m.spec.target_node ""))
    | inr read ↦ rw e (rw read (ensured m s held reached start))
  ]

  pub requested-Held :
      (m : PodMigration) (s : S)
      → stored s ≡ some m
      → Reached source requested m.status
      → Startable w stored source m s
      → Held checkpointing (reconcile w k s).1
  unfolding dispatch handle_pending
  requested-Held m s held reached start =
      rw (after_read m MigrationPhase.pending s held reached.0)
        (rw (start.source_read) (rw (start.source_runs) (targeted m s _ refl held reached start)))

  pub checkpointing-Held :
      (m : PodMigration) (s : S)
      → stored s ≡ some m
      → Reached source checkpointing m.status
      → Checkpointed w stored source m s
      → Held checkpointed (reconcile w k s).1
  unfolding dispatch handle_checkpointing follow_checkpoint
  checkpointing-Held m s held (phase, ref, early) there =
      rw (after_read m MigrationPhase.checkpointing s held (ap default_phase phase)) (
        rw (there.checkpoint_read) (
          rw (there.succeeded)
            (rw (there.ready) (after_write _ m checkpointed _ s held refl (refl, ref, early)))))

  pub checkpointed-Held :
      (m : PodMigration) (s : S)
      → stored s ≡ some m
      → Reached source checkpointed m.status
      → Held preparing (reconcile w k s).1
  unfolding dispatch handle_checkpoint_complete
  checkpointed-Held m s held (phase, ref, early) =
      rw (after_read m MigrationPhase.checkpoint_complete s held (ap default_phase phase))
        (after_write _ m preparing _ s held refl (refl, ref, early))
