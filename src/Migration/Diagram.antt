-- ===== src/Migration/Diagram.antt =====
-- The phases of a migration: the diagram, and the predicate on the log that the status writes follow
-- it.
use live_pod_migration.Base.{String, ◌≡◌, refl, Option, none, some, [], ◌∷◌}
use live_pod_migration.Effect.{ok}
use live_pod_migration.Effect.Keeps.{Keeps, keeps_rules}
use live_pod_migration.Api.Lpm.{
  MigrationPhase, PodMigration, pending, checkpointing, checkpoint_complete, preparing_images,
  restoring, succeeded, failed,
}
use live_pod_migration.World.{World}
use live_pod_migration.World.Calls.{Calls}
use live_pod_migration.World.Trace.{
  Keeps-logged, Keeps-silent, Event, got_migration, deleted_pod, wrote_migration, Log, traced,
  OnLog,
}
use live_pod_migration.Migration.Status.{update_phase, default_phase}

-- The diagram. `keep_…` are the writes that leave the phase as it is.
infix 40 ◌⟶◌
pub data ◌⟶◌ : MigrationPhase → MigrationPhase → Type 0 where
  request : pending ⟶ checkpointing
  complete : checkpointing ⟶ checkpoint_complete
  prepare : checkpoint_complete ⟶ preparing_images
  restore : preparing_images ⟶ restoring
  succeed : restoring ⟶ succeeded
  keep_checkpointing : {p : MigrationPhase} → p ≡ checkpointing → checkpointing ⟶ p
  keep_preparing : {p : MigrationPhase} → p ≡ preparing_images → preparing_images ⟶ p
  keep_restoring : {p : MigrationPhase} → p ≡ restoring → restoring ⟶ p
  fail_pending : pending ⟶ failed
  fail_checkpointing : checkpointing ⟶ failed
  fail_preparing : preparing_images ⟶ failed
  fail_restoring : restoring ⟶ failed

-- the phase of the newest migration that was read, an empty one taken for `pending`
abbrev pub phase_read : Log → Option MigrationPhase
phase_read [] = none
phase_read (got_migration (ok m) ∷ es) = some (default_phase m.status.phase)
phase_read (_ ∷ es) = phase_read es

-- every status write follows an edge from the phase that was read before it
abbrev pub Follows : Log → Type 0
Follows [] = Unit
Follows (wrote_migration m ∷ es) =
    ((p : MigrationPhase) × (phase_read es ≡ some p) × (p ⟶ m.status.phase)) × Follows es
Follows (_ ∷ es) = Follows es

-- the calls that are no status write, no deletion and no read of the migration
abbrev pub IsPlain : Event → Type 0
IsPlain (wrote_migration m) = ⊥
IsPlain (deleted_pod p) = ⊥
IsPlain (got_migration r) = ⊥
IsPlain _ = Unit

-- The predicates on the state that a handler of phase `p` keeps with the migration `m`: those that its
-- calls keep, and its status writes along the edges from `p`.
pub record Admits {S : Type 0} (w : World S) (m : PodMigration) (p : MigrationPhase)
    (P : S → Type 0) : Type 0 where
  pub calls : Calls w P
  pub on_write :
      (m' : PodMigration) → m'.meta ≡ m.meta → p ⟶ m'.status.phase → Keeps P (w.update_migration m')

-- The predicates on the log that admit plain calls, and status writes along the edges from `p`.
pub record LogAdmits (p : MigrationPhase) (P : Log → Type 0) : Type 0 where
  pub on_write :
      (m : PodMigration) (es : Log) → p ⟶ m.status.phase → P es → P (wrote_migration m ∷ es)
  pub on_call : (e : Event) (es : Log) → IsPlain e → P es → P (e ∷ es)

pub LogAdmits-traced :
    {S : Type 0} (w : World S) (m : PodMigration) {p : MigrationPhase} {P : Log → Type 0}
    → LogAdmits p P
    → Admits (traced w) m p (OnLog P)
LogAdmits-traced w m {p} {P} adm = record {
  calls = record {
    get_pod = λ k. Keeps-logged P _ _ (λ r es h. adm.on_call _ es tt h);
    create_pod = λ x. Keeps-logged P _ _ (λ r es h. adm.on_call _ es tt h);
    get_node = λ k. Keeps-silent P _;
    get_pod_checkpoint = λ k. Keeps-logged P _ _ (λ r es h. adm.on_call _ es tt h);
    create_pod_checkpoint = λ x. Keeps-logged P _ _ (λ r es h. adm.on_call _ es tt h);
    get_pod_content = λ k. Keeps-silent P _;
    get_container_content = λ k. Keeps-silent P _;
    dial = λ e. Keeps-logged P _ _ (λ r es h. adm.on_call _ es tt h);
    hang_up = λ c. Keeps-logged P _ _ (λ r es h. adm.on_call _ es tt h);
    convert_rpc = λ c r. Keeps-logged P _ _ (λ r es h. adm.on_call _ es tt h);
  };
  on_write = λ m' _ e. Keeps-logged P _ _ (λ r es h. adm.on_write m' es e h);
}

pub ruleset phase_rules = (
  keeps_rules, refl, tt, request, complete, prepare, restore, succeed, keep_checkpointing,
  keep_preparing, keep_restoring, fail_pending, fail_checkpointing, fail_preparing, fail_restoring,
)

module _ {S : Type 0} (w : World S) (m : PodMigration) {p : MigrationPhase} {P : S → Type 0}
    (adm : Admits w m p P) where
  pub update_phase-Keeps :
      (m' : PodMigration) (q : MigrationPhase) (message : String)
      → m'.meta ≡ m.meta
      → p ⟶ q
      → Keeps P (update_phase w m' q message)
  unfolding update_phase
  update_phase-Keeps m' q message same e = search (phase_rules, adm.on_write, same, e) depth 8
