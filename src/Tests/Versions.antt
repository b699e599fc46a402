-- ===== src/Tests/Versions.antt =====
-- An API server with resource versions, for one migration: the cluster held in memory, with the status
-- of the migration `shop/move` and the phases that it had, the newest first.
use Prim.Native.String.{len}
use text.Mathlib.TextPositions.{len-append}
use live_pod_migration.Base.{
  ℕ, zero, suc, ◌<◌, ◌≤◌, ◌&&◌, String, ◌<>◌, ◌≡◌, refl, ap, ◌∙◌, ◌⊎◌, inl, inr, Bool, true, false,
  Option, none, some, List, [], ◌∷◌, ◌==◌, ==_iff, arith, nat_eq, length, if◌then◌else◌,
}
use live_pod_migration.Effect.{Action, ok, err, other}
use live_pod_migration.Api.Core.{ObjectKey}
use live_pod_migration.Api.Lpm.{MigrationPhase, PodMigration, PodMigrationStatus}
use live_pod_migration.World.{World}
use live_pod_migration.Reconcile.{key, new_meta}
use live_pod_migration.Migration.Status.{default_phase}
use live_pod_migration.Migration.Store.{View, StoresMigration, Grows, stored, key_of}
use live_pod_migration.Migration.Store.Refines.{start, reconciled, Run-refines}
use live_pod_migration.Migration.Store.Order.{rank, Run-progress}
use live_pod_migration.Migration.Store.Moves.{◌⟶*◌}
use live_pod_migration.Migration.{reconcile}
use live_pod_migration.Tests.Cluster.{Cluster, memory}
use live_pod_migration.Tests.Objects.{migration, both_images, restored}

pub record Versioned : Type 0 where
  pub cluster : Cluster
  pub status : PodMigrationStatus
  pub past : List MigrationPhase

-- a version is a text that is as long as the number of versions before it
abbrev unary : ℕ → String
unary zero = ""
unary (suc n) = "v" <> unary n

len-unary : (n : ℕ) → len (unary n) ≡ n
len-unary zero = refl
len-unary (suc n) = len-append "v" (unary n) ∙ omega (arith, len-unary n)

abbrev phase_of : List MigrationPhase → String → Option MigrationPhase
phase_of [] version = none
phase_of (p ∷ ps) version = if nat_eq (len version) (length ps) then some p else phase_of ps version

abbrev history : Versioned → List MigrationPhase
history s = default_phase s.status.phase ∷ s.past

abbrev pub current : Versioned → String
current s = unary (length s.past)

abbrev view : View Versioned
view = record { current = current; phase_at = λ s version. phase_of (history s) version }

phase_of_old :
    (ps : List MigrationPhase) (version : String) (p : MigrationPhase)
    → phase_of ps version ≡ some p
    → len version < length ps
phase_of_old [] version p e = cc
phase_of_old (q ∷ ps) version p e = ground (arith, phase_of_old ps version p)

phase_of-current :
    (p : MigrationPhase) (ps : List MigrationPhase) → phase_of (p ∷ ps) (unary (length ps)) ≡ some p
phase_of-current p ps = rw (len-unary (length ps)) (ground arith)

phase_of-push :
    (q : MigrationPhase) (ps : List MigrationPhase) (version : String) (p : MigrationPhase)
    → phase_of ps version ≡ some p
    → phase_of (q ∷ ps) version ≡ some p
phase_of-push q ps version p e = ground (arith, phase_of_old ps version p)

abbrev pub the_key : ObjectKey
the_key = key "shop" "move"

abbrev pub object : Versioned → PodMigration
object s = record (migration s.status.phase "" none) {
  meta = record (new_meta "shop" "move") { resource_version = current s };
  status = s.status;
}

abbrev pub push : PodMigration → Versioned → Versioned
push m s = record s { status = m.status; past = history s }

-- whether a status write is of this migration, and made from the current version
abbrev pub accepts : PodMigration → Versioned → Bool
accepts m s =
    m.meta.namespace == "shop" && m.meta.name == "move" && m.meta.resource_version == current s

-- the answer to a status write, by whether it is accepted
abbrev pub answer_write : Bool → PodMigration → Action Versioned PodMigration
answer_write true m s = (ok (object (push m s)), push m s)
answer_write false m s = (err (record { reason = other; text = "the object has been modified" }), s)

abbrev on_cluster : {A : Type 0} → Action Cluster A → Action Versioned A
on_cluster m s = ((m s.cluster).0, record s { cluster = (m s.cluster).1 })

abbrev pub versioned : World Versioned
versioned = record {
  get_pod = λ k. on_cluster (memory.get_pod k);
  create_pod = λ p. on_cluster (memory.create_pod p);
  delete_pod = λ p. on_cluster (memory.delete_pod p);
  get_node = λ k. on_cluster (memory.get_node k);
  get_migration = λ k s. (ok (object s), s);
  update_migration = λ m s. answer_write (accepts m s) m s;
  get_pod_checkpoint = λ k. on_cluster (memory.get_pod_checkpoint k);
  create_pod_checkpoint = λ p. on_cluster (memory.create_pod_checkpoint p);
  update_pod_checkpoint = λ p. on_cluster (memory.update_pod_checkpoint p);
  get_pod_content = λ k. on_cluster (memory.get_pod_content k);
  create_pod_content = λ c. on_cluster (memory.create_pod_content c);
  update_pod_content = λ c. on_cluster (memory.update_pod_content c);
  get_container_checkpoint = λ k. on_cluster (memory.get_container_checkpoint k);
  create_container_checkpoint = λ c. on_cluster (memory.create_container_checkpoint c);
  update_container_checkpoint = λ c. on_cluster (memory.update_container_checkpoint c);
  list_container_checkpoints = λ n l. on_cluster (memory.list_container_checkpoints n l);
  get_container_content = λ k. on_cluster (memory.get_container_content k);
  create_container_content = λ c. on_cluster (memory.create_container_content c);
  controller_ref = memory.controller_ref;
  now = on_cluster memory.now;
  dial = λ e. on_cluster (memory.dial e);
  hang_up = λ c. on_cluster (memory.hang_up c);
  checkpoint_rpc = λ c r. on_cluster (memory.checkpoint_rpc c r);
  convert_rpc = λ c r. on_cluster (memory.convert_rpc c r);
}

module _ (m : PodMigration) (s : Versioned) where
  grows : (b : Bool) → Grows view s (answer_write b m s).1
  grows true version p e = phase_of-push (default_phase m.status.phase) (history s) version p e
  grows false version p e = e

  answers :
      (a : PodMigration) (s₁ : Versioned) (b : Bool)
      → answer_write b m s ≡ (ok a, s₁)
      → (a.status.phase ≡ m.status.phase)
        × (phase_of (history s₁) a.meta.resource_version ≡ some (default_phase a.status.phase))
  answers a s₁ true e =
      let same : a ≡ object (push m s) = cc in
      let after : s₁ ≡ push m s = cc in
      rw (same, after) (refl, phase_of-current (default_phase m.status.phase) (history s))
  answers a s₁ false e = cc

  accepted : accepts m s ≡ true → (key_of m ≡ the_key) × (m.meta.resource_version ≡ current s)
  accepted e =
      let namespace : m.meta.namespace ≡ "shop" = ground (arith, ==_iff m.meta.namespace "shop") in
      let name : m.meta.name ≡ "move" = ground (arith, ==_iff m.meta.name "move") in
      let version : m.meta.resource_version ≡ current s =
        ground (arith, ==_iff m.meta.resource_version (current s)) in
      (
        ap (λ (x : String). key x m.meta.name) namespace ∙ ap (λ (x : String). key "shop" x) name,
        version,
      )

  writes :
      (b : Bool)
      → accepts m s ≡ b
      → (stored view (answer_write b m s).1 ≡ stored view s)
        ⊎ ((key_of m ≡ the_key)
            × (m.meta.resource_version ≡ current s)
            × (stored view (answer_write b m s).1 ≡ some (default_phase m.status.phase)))
  writes true e =
      let (mine, version) = accepted e in
      inr (mine, version, phase_of-current (default_phase m.status.phase) (history s))
  writes false e = inl refl

versioned-StoresMigration : StoresMigration versioned the_key view
versioned-StoresMigration = record {
  get_pod = λ j s. (refl, λ version p e. e);
  create_pod = λ x s. (refl, λ version p e. e);
  delete_pod = λ x s. (refl, λ version p e. e);
  get_node = λ j s. (refl, λ version p e. e);
  get_pod_checkpoint = λ j s. (refl, λ version p e. e);
  create_pod_checkpoint = λ x s. (refl, λ version p e. e);
  get_pod_content = λ j s. (refl, λ version p e. e);
  get_container_content = λ j s. (refl, λ version p e. e);
  dial = λ x s. (refl, λ version p e. e);
  hang_up = λ c s. (refl, λ version p e. e);
  convert_rpc = λ c r s. (refl, λ version p e. e);
  get_migration = λ j s. (refl, λ version p e. e);
  read = λ j s s₁ m e own.
      let same : m ≡ object s = cc in
      let after : s₁ ≡ s = cc in
      rw (same, after) (phase_of-current (default_phase s.status.phase) s.past);
  write = λ m s. writes m s (accepts m s) refl;
  write_grows = λ m s. grows m s (accepts m s);
  answer = λ m a s s₁ e. let (same, held) = answers m s a s₁ (accepts m s) e in (same, λ own. held);
}

-- the restored pod runs
abbrev restoring_now : Versioned
restoring_now = record {
  cluster = restored;
  status = (migration MigrationPhase.restoring "web-restored" (some both_images)).status;
  past = MigrationPhase.preparing_images ∷ [];
}

abbrev after_reconcile : Versioned
after_reconcile = (reconcile versioned the_key restoring_now).1

Run-refines_example :
    (q : MigrationPhase) × (stored view after_reconcile ≡ some q) × (MigrationPhase.restoring ⟶* q)
Run-refines_example =
    Run-refines versioned the_key view restoring_now after_reconcile MigrationPhase.restoring
      versioned-StoresMigration refl (reconciled start the_key)

Run-progress_example :
    (q : MigrationPhase) × (stored view after_reconcile ≡ some q)
    × ((MigrationPhase.restoring ≡ q) ⊎ (rank MigrationPhase.restoring < rank q))
    × (rank q ≤ 5)
    × (rank MigrationPhase.restoring ≡ 5 → MigrationPhase.restoring ≡ q)
Run-progress_example =
    Run-progress versioned the_key view restoring_now after_reconcile MigrationPhase.restoring
      versioned-StoresMigration refl (reconciled start the_key)
