-- ===== src/Migration/Deletion.antt =====
-- When a reconcile of a migration deletes a pod.
use live_pod_migration.Base.{◌≡◌, refl, true, Option, none, some, [], ◌∷◌}
use live_pod_migration.Effect.{ok}
use live_pod_migration.Effect.Keeps.{Keeps-pure}
use live_pod_migration.Api.Core.{ObjectKey, Pod}
use live_pod_migration.Api.Lpm.{MigrationPhase, PodMigration}
use live_pod_migration.World.{World}
use live_pod_migration.World.Trace.{
  Event, got_pod, got_migration, deleted_pod, Log, Traced, traced, OnLog, Keeps-read_found,
}
use live_pod_migration.Reconcile.{is_running}
use live_pod_migration.Migration.Status.{default_phase, defaulted}
use live_pod_migration.Migration.Diagram.{LogAdmits, IsPlain}
use live_pod_migration.Migration.Restore.Writes.{source_key, restored_key, AdmitsDelete}
use live_pod_migration.Migration.Handlers.{dispatch-traced}
use live_pod_migration.Migration.{reconcile}

-- the newest migration that was read
abbrev pub migration_read : Log → Option PodMigration
migration_read [] = none
migration_read (got_migration (ok m) ∷ es) = some m
migration_read (_ ∷ es) = migration_read es

-- the two calls before a deletion of `p`: `p` was read as the source pod of the migration at hand, and
-- right before that the restored pod of that migration was read and ran
abbrev pub MayDelete : Pod → Log → Type 0
MayDelete p (got_pod j (ok p') ∷ got_pod k (ok q) ∷ es) =
    (m : PodMigration) × (migration_read es ≡ some m)
    × (j ≡ source_key m)
    × (p' ≡ p)
    × (k ≡ restored_key m)
    × (is_running q ≡ true)
MayDelete p _ = ⊥

abbrev pub Guarded : Log → Type 0
Guarded [] = Unit
Guarded (deleted_pod p ∷ es) = MayDelete p es × Guarded es
Guarded (_ ∷ es) = Guarded es

abbrev At : PodMigration → Log → Type 0
At m es = Guarded es × (migration_read es ≡ some m)

At-on_call : (m : PodMigration) (e : Event) (es : Log) → IsPlain e → At m es → At m (e ∷ es)
At-on_call m (deleted_pod p) es plain h = absurd plain
At-on_call m (got_migration r) es plain h = absurd plain
At-on_call m _ es plain h = h

At-LogAdmits : (p : MigrationPhase) (m : PodMigration) → LogAdmits p (At m)
At-LogAdmits p m = record { on_write = λ m' es e h. h; on_call = At-on_call m }

-- Whatever the world answers, a reconcile of a migration deletes a pod only if it has just read that
-- pod as the source of the migration, and the restored pod before it, found and running: if that
-- holds of all deletions in the log before, it holds of all in the log after.
pub reconcile-Guarded :
    {S : Type 0} (w : World S) (req : ObjectKey) (t : Traced S)
    → Guarded t.log
    → Guarded (reconcile (traced w) req t).1.log
unfolding reconcile OnLog
reconcile-Guarded {S} w req =
    (Keeps-read_found Guarded got_migration (w.get_migration req) _ _ (λ es r h. h) (Keeps-pure _)
      (λ m s es h.
        let p = default_phase m.status.phase in
        let t : Traced S = record { inner = s; log = got_migration (ok m) ∷ es } in
        let del : AdmitsDelete (defaulted m) (At m) =
          λ a q es run h. ((((m, h.1, refl, refl, refl, run), h.0)), h.1) in
        ((dispatch-traced w (defaulted m) p refl (At-LogAdmits p m) del).at t (h, refl)).0)).at
