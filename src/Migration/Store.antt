-- ===== src/Migration/Store.antt =====
-- What the API server documents of the migrations that it stores, as far as the reconciler relies on
-- it: an object has a resource version, a status write is made from the version that it was read at,
-- and is refused if that is no longer the current one.
pub mod Moves
pub mod Refines
pub mod Order
use live_pod_migration.Base.{ℕ, String, ◌≡◌, ◌⊎◌, Option, none, some}
use live_pod_migration.Effect.{Action, ok}
use live_pod_migration.Api.Core.{ObjectKey, Pod}
use live_pod_migration.Api.Lpm.{MigrationPhase, PodMigration, PodCheckpoint}
use live_pod_migration.Api.Rpc.{ConvertRequest}
use live_pod_migration.World.{World}
use live_pod_migration.Reconcile.{key}
use live_pod_migration.Migration.Status.{default_phase}

abbrev pub key_of : PodMigration → ObjectKey
key_of m = key m.meta.namespace m.meta.name

-- The migration of one key, in every state of the world: its current resource version, and the phase
-- that it had at each version so far (the empty one taken for `pending`).
pub record View (S : Type 0) : Type 0 where
  pub current : S → String
  pub phase_at : S → String → Option MigrationPhase

abbrev pub stored : {S : Type 0} → View S → S → Option MigrationPhase
stored v s = v.phase_at s (v.current s)

-- `t` follows `s`, and no version was forgotten or changed
abbrev pub Grows : {S : Type 0} → View S → S → S → Type 0
Grows v s t =
    (version : String) (p : MigrationPhase)
    → v.phase_at s version ≡ some p
    → v.phase_at t version ≡ some p

-- a call that leaves the phase of the migration alone
abbrev pub Leaves : {S A : Type 0} → View S → Action S A → Type 0
Leaves {S} v m = (s : S) → (stored v (m s).1 ≡ stored v s) × Grows v s (m s).1

-- The laws. The calls other than a status write of the migration do not move its phase, also where
-- others act meanwhile: the status is the reconciler's alone.
pub record StoresMigration {S : Type 0} (w : World S) (k : ObjectKey) (v : View S) : Type 0 where
  pub get_pod : (j : ObjectKey) → Leaves v (w.get_pod j)
  pub create_pod : (p : Pod) → Leaves v (w.create_pod p)
  pub delete_pod : (p : Pod) → Leaves v (w.delete_pod p)
  pub get_node : (j : ObjectKey) → Leaves v (w.get_node j)
  pub get_pod_checkpoint : (j : ObjectKey) → Leaves v (w.get_pod_checkpoint j)
  pub create_pod_checkpoint : (p : PodCheckpoint) → Leaves v (w.create_pod_checkpoint p)
  pub get_pod_content : (j : ObjectKey) → Leaves v (w.get_pod_content j)
  pub get_container_content : (j : ObjectKey) → Leaves v (w.get_container_content j)
  pub dial : (endpoint : String) → Leaves v (w.dial endpoint)
  pub hang_up : (conn : ℕ) → Leaves v (w.hang_up conn)
  pub convert_rpc : (conn : ℕ) (req : ConvertRequest) → Leaves v (w.convert_rpc conn req)
  pub get_migration : (j : ObjectKey) → Leaves v (w.get_migration j)
  -- a read may be stale, but its version says which state it shows
  pub read :
      (j : ObjectKey) (s s₁ : S) (m : PodMigration)
      → w.get_migration j s ≡ (ok m, s₁)
      → key_of m ≡ k
      → v.phase_at s₁ m.meta.resource_version ≡ some (default_phase m.status.phase)
  -- a status write is refused, or it was made from the current version
  pub write :
      (m : PodMigration) (s : S)
      → (stored v (w.update_migration m s).1 ≡ stored v s)
        ⊎ ((key_of m ≡ k)
            × (m.meta.resource_version ≡ v.current s)
            × (stored v (w.update_migration m s).1 ≡ some (default_phase m.status.phase)))
  pub write_grows : (m : PodMigration) (s : S) → Grows v s (w.update_migration m s).1
  -- the answer to a status write is the object at its new version
  pub answer :
      (m a : PodMigration) (s s₁ : S)
      → w.update_migration m s ≡ (ok a, s₁)
      → (a.status.phase ≡ m.status.phase)
        × (key_of a ≡ k
            → v.phase_at s₁ a.meta.resource_version ≡ some (default_phase a.status.phase))
