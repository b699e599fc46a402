-- ===== src/Migration/Handlers.antt =====
-- What the handlers of a PodMigration keep, phase by phase.
use live_pod_migration.Base.{String, ◌≡◌, refl, Bool, Option, none, some, List}
use live_pod_migration.Effect.Keeps.{Keeps, Keeps-pure}
use live_pod_migration.Api.Core.{Container, LocalObjectReference}
use live_pod_migration.Api.Lpm.{
  CheckpointPhase, MigrationPhase, PodMigration, PodCheckpoint, pending, checkpointing,
  checkpoint_complete, preparing_images, restoring, succeeded, failed,
}
use live_pod_migration.World.{World}
use live_pod_migration.World.Trace.{Log, traced, OnLog}
use live_pod_migration.Migration.Diagram.{
  LogAdmits, LogAdmits-traced, Admits, phase_rules, update_phase-Keeps, fail_checkpointing,
}
use live_pod_migration.Migration.Images.Writes.{handle_preparing_images-Keeps, finish_images-traced}
use live_pod_migration.Migration.Restore.Writes.{
  AdmitsDelete, handle_restoring-Keeps, watch_restored-traced,
}
use live_pod_migration.Migration.Images.{finish_images}
use live_pod_migration.Migration.Restore.{watch_restored}
use live_pod_migration.Effect.{maybe}
use mathlib.Core.Path.{subst}
use live_pod_migration.Migration.{
  with_checkpoint_ref, ensure_checkpoint, handle_pending, handle_checkpointing,
  handle_checkpoint_complete, follow_checkpoint, recreate_checkpoint, dispatch,
}

module _ {S : Type 0} (w : World S) (m : PodMigration) {P : S → Type 0}
    (adm : Admits w m pending P) where
  bound-meta :
      (o : Option LocalObjectReference) (name : String)
      → (maybe o (with_checkpoint_ref w name m) (λ _. m)).meta ≡ m.meta
  bound-meta none name = refl
  bound-meta (some ref) name = refl

  ensure_checkpoint-Keeps : Keeps P (ensure_checkpoint w m)
  unfolding ensure_checkpoint
  ensure_checkpoint-Keeps =
      search
        (
          phase_rules, adm.on_write, bound-meta, adm.calls.get_pod_checkpoint,
          adm.calls.create_pod_checkpoint,
        )
        depth 8

  handle_pending-Keeps : Keeps P (handle_pending w m)
  unfolding handle_pending
  handle_pending-Keeps =
      search
        (
          phase_rules,
          adm.calls.get_pod,
          adm.calls.get_node,
          update_phase-Keeps w m adm,
          ensure_checkpoint-Keeps,
        )
        depth 8

module _ {S : Type 0} (w : World S) (m : PodMigration) {P : S → Type 0}
    (adm : Admits w m checkpointing P) where
  recreate_checkpoint-Keeps :
      (name : String) → m.status.phase ≡ checkpointing → Keeps P (recreate_checkpoint w m name)
  unfolding recreate_checkpoint
  recreate_checkpoint-Keeps name e =
      search (phase_rules, adm.on_write, adm.calls.create_pod_checkpoint) depth 10

  follow_checkpoint-Keeps :
      (p : CheckpointPhase) (pc : PodCheckpoint) → Keeps P (follow_checkpoint w m p pc)
  unfolding follow_checkpoint
  follow_checkpoint-Keeps failed pc = update_phase-Keeps w m adm m failed _ refl fail_checkpointing
  follow_checkpoint-Keeps succeeded pc = search (phase_rules, adm.on_write) depth 10
  follow_checkpoint-Keeps _ pc = search phase_rules

  handle_checkpointing-Keeps : m.status.phase ≡ checkpointing → Keeps P (handle_checkpointing w m)
  unfolding handle_checkpointing
  handle_checkpointing-Keeps e =
      search
        (
          phase_rules, adm.calls.get_pod_checkpoint, recreate_checkpoint-Keeps,
          follow_checkpoint-Keeps,
        )
        depth 8

module _ {S : Type 0} (w : World S) (m : PodMigration) {P : S → Type 0} where
  handle_checkpoint_complete-Keeps :
      Admits w m checkpoint_complete P → Keeps P (handle_checkpoint_complete w m)
  unfolding handle_checkpoint_complete
  handle_checkpoint_complete-Keeps adm = search (phase_rules, adm.on_write) depth 8

  -- A handler keeps every predicate that admits the calls and the status writes of its phase, where the
  -- end of the preparation and the watch of the restored pod keep it.
  pub dispatch-Keeps :
      (p : MigrationPhase)
      → m.status.phase ≡ p
      → Admits w m p P
      → (p ≡ preparing_images
          → (cs : List Container) (m' : PodMigration) (ready : Bool) → m'.meta ≡ m.meta
          → m'.status.phase ≡ preparing_images
          → Keeps P (finish_images w cs m' ready))
      → (p ≡ restoring → Keeps P (watch_restored w m))
      → Keeps P (dispatch w p m)
  unfolding dispatch
  dispatch-Keeps pending e adm finish watch = handle_pending-Keeps w m adm
  dispatch-Keeps checkpointing e adm finish watch = handle_checkpointing-Keeps w m adm e
  dispatch-Keeps checkpoint_complete e adm finish watch = handle_checkpoint_complete-Keeps adm
  dispatch-Keeps preparing_images e adm finish watch =
      handle_preparing_images-Keeps w m adm (finish refl) e
  dispatch-Keeps restoring e adm finish watch = handle_restoring-Keeps w m adm (watch refl) e
  dispatch-Keeps _ e adm finish watch = Keeps-pure _

-- With a log: a handler keeps every predicate on the log that admits the writes of its phase and a
-- deletion after a look at the running restored pod.
pub dispatch-traced :
    {S : Type 0} (w : World S) (m : PodMigration) {P : Log → Type 0} (p : MigrationPhase)
    → m.status.phase ≡ p
    → LogAdmits p P
    → AdmitsDelete m P
    → Keeps (OnLog P) (dispatch (traced w) p m)
dispatch-traced w m {P} p e adm del =
    dispatch-Keeps (traced w) m p e (LogAdmits-traced w m adm)
      (λ same. finish_images-traced w m (subst (λ x. LogAdmits x P) same adm))
      (λ same. watch_restored-traced w m (subst (λ x. LogAdmits x P) same adm) del)
