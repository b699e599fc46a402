-- ===== src/Migration/Phases.antt =====
-- The status writes of a reconcile of a migration, and the diagram of the phases.
use live_pod_migration.Base.{◌≡◌, refl, some, ◌∷◌}
use live_pod_migration.Effect.{ok}
use live_pod_migration.Effect.Keeps.{Keeps-pure}
use live_pod_migration.Api.Core.{ObjectKey}
use live_pod_migration.Api.Lpm.{MigrationPhase}
use live_pod_migration.World.{World}
use live_pod_migration.World.Trace.{
  Event, got_migration, wrote_migration, Log, Traced, traced, OnLog, Keeps-read_found,
}
use live_pod_migration.Migration.Status.{default_phase, defaulted}
use live_pod_migration.Migration.Diagram.{Follows, phase_read, LogAdmits, IsPlain}
use live_pod_migration.Migration.Handlers.{dispatch-traced}
use live_pod_migration.Migration.{reconcile}

-- the log follows the diagram, and the last phase read is `p`
abbrev From : MigrationPhase → Log → Type 0
From p es = Follows es × (phase_read es ≡ some p)

From-on_call : (p : MigrationPhase) (e : Event) (es : Log) → IsPlain e → From p es → From p (e ∷ es)
From-on_call p (wrote_migration m) es plain h = absurd plain
From-on_call p (got_migration r) es plain h = absurd plain
From-on_call p _ es plain h = h

From-LogAdmits : (p : MigrationPhase) → LogAdmits p (From p)
From-LogAdmits p = record {
  on_write = λ m es e (f, h). (((p, h, e), f), h);
  on_call = From-on_call p;
}

-- Whatever the world answers, a reconcile of a migration writes only statuses whose phase is joined
-- to the phase that it read (an empty one taken for `pending`) by an edge of the diagram: if that
-- holds of all status writes in the log before, it holds of all in the log after.
pub reconcile-Follows :
    {S : Type 0} (w : World S) (req : ObjectKey) (t : Traced S)
    → Follows t.log
    → Follows (reconcile (traced w) req t).1.log
unfolding reconcile OnLog
reconcile-Follows {S} w req =
    (Keeps-read_found Follows got_migration (w.get_migration req) _ _ (λ es r h. h) (Keeps-pure _)
      (λ m s es h.
        let p = default_phase m.status.phase in
        let t : Traced S = record { inner = s; log = got_migration (ok m) ∷ es } in
        ((dispatch-traced w (defaulted m) p refl (From-LogAdmits p) (λ _ _ _ _ h. h)).at t
          (h, refl)).0)).at
