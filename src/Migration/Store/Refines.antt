-- ===== src/Migration/Store/Refines.antt =====
-- The abstract migration is a walk along the diagram; any run of reconciles is one.
use mathlib.Core.Path.{subst}
use live_pod_migration.Base.{◌≡◌, refl, sym, ◌∙◌, some}
use live_pod_migration.Effect.{Outcome, ok, err, panic, is_not_found, pure, raise, resume}
use live_pod_migration.Base.{if◌then◌else◌}
use live_pod_migration.Effect.Keeps.{Keeps, Keeps-if, Keeps-pure, Keeps-raise}
use live_pod_migration.Api.Core.{ObjectKey}
use live_pod_migration.Api.Lpm.{MigrationPhase, PodMigration, restoring}
use live_pod_migration.World.{World}
use live_pod_migration.Reconcile.{done}
use live_pod_migration.Migration.Status.{default_phase, defaulted}
use live_pod_migration.Migration.Handlers.{dispatch-Keeps}
use live_pod_migration.Migration.Restore.Writes.{watch_restored-Keeps}
use live_pod_migration.Migration.Images.{finish_images}
use live_pod_migration.Migration.Restore.{watch_restored}
use live_pod_migration.Migration.Store.{View, stored, Grows, StoresMigration}
use live_pod_migration.Migration.Store.Moves.{
  ◌⟶*◌, stay, move, Moved, At, At-Admits, Keeps-Leaves, finish_images-At,
}
use live_pod_migration.Migration.{dispatch, reconcile}

pub trans : {p q r : MigrationPhase} → p ⟶* q → q ⟶* r → p ⟶* r
trans a stay = a
trans a (move b e) = move (trans a b) e

-- A run of the program and its surroundings: reconciles of any migrations, and moves of others that
-- leave the migration's phase alone.
pub data Run {S : Type 0} (w : World S) (v : View S) (s : S) : S → Type 0 where
  start : Run w v s s
  reconciled : {t : S} → Run w v s t → (req : ObjectKey) → Run w v s (reconcile w req t).1
  disturbed : {t u : S} → Run w v s t → stored v u ≡ stored v t → Grows v t u → Run w v s u

module _ {S : Type 0} {w : World S} {k : ObjectKey} {v : View S} (laws : StoresMigration w k v)
    (p₀ : MigrationPhase) where
  dispatch-At :
      (m : PodMigration) (p : MigrationPhase)
      → m.status.phase ≡ p
      → Keeps (At laws p₀ m p) (dispatch w p m)
  dispatch-At m p e =
      dispatch-Keeps w m p e (At-Admits laws p₀ m p)
        (λ same cs m' ready own phase.
          subst (λ q. Keeps (At laws p₀ m q) (finish_images w cs m' ready)) (sym same)
            (finish_images-At laws p₀ m cs m' ready own phase))
        (λ same.
          subst (λ q. Keeps (At laws p₀ m q) (watch_restored w m)) (sym same)
            (watch_restored-Keeps w m (At-Admits laws p₀ m restoring)
              (λ x. Keeps-Leaves laws p₀ m restoring _ (laws.delete_pod x))))

  after_read :
      (req : ObjectKey) (r : Outcome PodMigration) (s s₁ : S)
      → w.get_migration req s ≡ (r, s₁)
      → Moved laws p₀ s₁
      → Moved laws p₀
          (resume r
            (λ e. if is_not_found e then pure done else raise e)
            (λ m. dispatch w (default_phase m.status.phase) (defaulted m))
            s₁).1
  after_read req (ok m) s s₁ got h =
      let p = default_phase m.status.phase in
      ((dispatch-At (defaulted m) p refl).at s₁ (laws.read req s s₁ m got, h)).1
  after_read req (err e) s s₁ got h =
      (Keeps-if {P = Moved laws p₀} (is_not_found e) (pure done) (raise e) (λ _. Keeps-pure done)
          (λ _. Keeps-raise e)).at
        s₁ h
  after_read req panic s s₁ got h = h

  reconcile-Moved :
      (req : ObjectKey) (s : S) → Moved laws p₀ s → Moved laws p₀ (reconcile w req s).1
  unfolding reconcile
  reconcile-Moved req s (q, e, moves) =
      let r = w.get_migration req s in
      after_read req r.0 s r.1 refl (q, (laws.get_migration req s).0 ∙ e, moves)

-- Where the API server stores the migration as it documents, any run of reconciles, of this migration
-- and others, with stale reads, refused writes and calls of others in between, takes the stored phase
-- along a walk of the diagram.
pub Run-refines :
    {S : Type 0} (w : World S) (k : ObjectKey) (v : View S) (s t : S) (p : MigrationPhase)
    → StoresMigration w k v
    → stored v s ≡ some p
    → Run w v s t
    → (q : MigrationPhase) × (stored v t ≡ some q) × (p ⟶* q)
Run-refines w k v s t p laws e start = (p, e, stay)
Run-refines w k v s t p laws e (reconciled {t = u} run req) =
    reconcile-Moved laws p req u (Run-refines w k v s u p laws e run)
Run-refines w k v s t p laws e (disturbed {t = u} run same grows) =
    let (q, held, moves) = Run-refines w k v s u p laws e run in (q, same ∙ held, moves)
