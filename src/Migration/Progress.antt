-- ===== src/Migration/Progress.antt =====
-- How a migration gets on: the stages of a migration that meets no failure, and what each of them waits
-- for.
pub mod Loop
pub mod Steps
pub mod Restored
pub mod Completes
pub mod Handover
use live_pod_migration.Base.{
  ℕ, zero, suc, String, ◌≡◌, ◌≢◌, ◌⊎◌, Bool, true, false, Option, none, some, List, [], ◌∷◌, ◌==◌,
}
use live_pod_migration.Base.Maps.{StringMap, lookup, insert}
use live_pod_migration.Effect.{Error, ok, err, is_not_found}
use live_pod_migration.Api.Core.{ObjectKey, LocalObjectReference, Container, Pod, PodPhase, Node}
use live_pod_migration.Api.Lpm.{
  MigrationPhase, CheckpointPhase, PodMigration, PodMigrationStatus, PodCheckpoint,
  PodCheckpointContent,
}
use live_pod_migration.World.{World}
use live_pod_migration.World.Working.{Works, Rounds}
use live_pod_migration.Reconcile.{key, is_running}
use live_pod_migration.Migration.Status.{default_phase, defaulted}
use live_pod_migration.Migration.Store.{key_of}
use live_pod_migration.Migration.Images.{
  entries, images_of, with_images, get_checkpoint_path_for_container, convert_to_oci_image,
}
use live_pod_migration.Migration.Images.Loop.{HasImages}
use live_pod_migration.Migration.Images.Count.{IsCounted, IsDistinct}
use live_pod_migration.Migration.Restore.{restored_pod}
use live_pod_migration.Migration.{checkpoint_name, new_checkpoint, reconcile}

-- the server works for the migration of the key
pub record WorkingServer {S : Type 0} (w : World S) (k : ObjectKey)
    (stored : S → Option PodMigration) : Type 0 where
  pub works :
      Works
        (w.get_migration k)
        w.update_migration
        (λ (m : PodMigration). m.meta)
        (λ (m : PodMigration). m.status)
        stored

-- the stages, in their order
pub data Stage : Type 0 where
  requested checkpointing checkpointed preparing restoring starting completed : Stage

abbrev pub next : Stage → Stage
next requested = checkpointing
next checkpointing = checkpointed
next checkpointed = preparing
next preparing = restoring
next restoring = starting
next starting = completed
next completed = completed

-- the stage that so many rounds lead to
abbrev pub after : ℕ → Stage
after zero = requested
after (suc n) = next (after n)

abbrev pub HasReference : PodMigrationStatus → Type 0
HasReference x = (r : LocalObjectReference) × (x.pod_checkpoint_ref ≡ some r)

-- not restored yet, and each entry of its map is the image of a container
abbrev pub IsEarly : Pod → PodMigrationStatus → Type 0
IsEarly source x =
    (x.restored_pod_name ≡ "") × IsCounted (entries x.checkpoint_images) source.spec.containers

-- the status of a migration of the pod `source` that is at a stage
abbrev pub Reached : Pod → Stage → PodMigrationStatus → Type 0
Reached source requested x =
    (default_phase x.phase ≡ MigrationPhase.pending)
    × (x.pod_checkpoint_ref ≡ none)
    × IsEarly source x
Reached source checkpointing x =
    (x.phase ≡ MigrationPhase.checkpointing) × HasReference x × IsEarly source x
Reached source checkpointed x =
    (x.phase ≡ MigrationPhase.checkpoint_complete) × HasReference x × IsEarly source x
Reached source preparing x =
    (x.phase ≡ MigrationPhase.preparing_images) × HasReference x × IsEarly source x
Reached source restoring x =
    (x.phase ≡ MigrationPhase.restoring)
    × (x.restored_pod_name ≡ "")
    × ((images : StringMap) × (x.checkpoint_images ≡ some images)
        × HasImages images source.spec.containers)
Reached source starting x =
    (x.phase ≡ MigrationPhase.restoring) × ((x.restored_pod_name == "") ≡ false)
Reached source completed x = x.phase ≡ MigrationPhase.succeeded

-- the first if there is no value, and else the second
abbrev pub OnMissing : Option String → Type 0 → Type 0 → Type 0
OnMissing none Missing Given = Missing
OnMissing (some _) Missing Given = Given

module _ {S : Type 0} (w : World S) (stored : S → Option PodMigration) where
  -- the checkpoint of each container that has no image yet is found, and an agent makes an image of it
  abbrev pub AllConvert : PodCheckpointContent → List Container → PodMigration → S → Type 0
  AllConvert content [] m s = Unit
  AllConvert content (c ∷ cs) m s =
      OnMissing (lookup c.name (images_of m))
        ((path : String) × (image : String) × (s₁ : S) × (get_checkpoint_path_for_container w
              content c.name s
            ≡ (ok path, s))
          × ((path == "") ≡ false)
          × (convert_to_oci_image w path c.name m.spec.target_node s ≡ (ok image, s₁))
          × (stored s₁ ≡ stored s)
          × AllConvert content cs (with_images m (insert c.name image (images_of m))) s₁)
        (AllConvert content cs m s)

module _ {S : Type 0} (w : World S) (stored : S → Option PodMigration) (source : Pod) where
  -- the source pod can be read
  abbrev pub SourceRead : PodMigration → S → Type 0
  SourceRead m s = w.get_pod (key m.meta.namespace m.spec.pod_name) s ≡ (ok source, s)

  -- the pod runs, the target node is there, and so is the checkpoint, or it can be created
  pub record Startable (m : PodMigration) (s : S) : Type 0 where
    pub source_read : SourceRead m s
    pub source_runs : is_running source ≡ true
    pub node : Node
    pub node_read :
        (m.spec.target_node ≡ "") ⊎ (w.get_node (key "" m.spec.target_node) s ≡ (ok node, s))
    pub checkpoint :
        ((pc : PodCheckpoint) × (w.get_pod_checkpoint (key m.meta.namespace m.meta.name) s
            ≡ (ok pc, s)))
        ⊎ ((e : Error) × (pc : PodCheckpoint) × (s₁ : S) × (w.get_pod_checkpoint
                (key m.meta.namespace m.meta.name)
                s
              ≡ (err e, s))
            × (is_not_found e ≡ true)
            × (w.create_pod_checkpoint (new_checkpoint w (defaulted m) m.meta.name) s ≡ (ok pc, s₁))
            × (stored s₁ ≡ stored s))

  -- the PodCheckpoint has succeeded
  pub record Checkpointed (m : PodMigration) (s : S) : Type 0 where
    pub checkpoint : PodCheckpoint
    pub checkpoint_read :
        w.get_pod_checkpoint (key m.meta.namespace (checkpoint_name w m)) s ≡ (ok checkpoint, s)
    pub succeeded : checkpoint.status.phase ≡ CheckpointPhase.succeeded
    pub ready : checkpoint.status.ready ≡ true

  -- the content is bound, and each container's checkpoint can be made an image
  pub record Convertible (m : PodMigration) (s : S) : Type 0 where
    pub source_read : SourceRead m s
    pub distinct : IsDistinct source.spec.containers
    pub checkpoint : PodCheckpoint
    pub checkpoint_read :
        (r : LocalObjectReference)
        → m.status.pod_checkpoint_ref ≡ some r
        → w.get_pod_checkpoint (key m.meta.namespace r.name) s ≡ (ok checkpoint, s)
    pub bound : (checkpoint.status.bound_content_name == "") ≡ false
    pub content : PodCheckpointContent
    pub content_read :
        w.get_pod_content (key m.meta.namespace checkpoint.status.bound_content_name) s
        ≡ (ok content, s)
    pub converts :
        AllConvert w stored content source.spec.containers
          (with_images (defaulted m) (images_of m))
          s

  -- the restored pod can be created
  pub record Restorable (m : PodMigration) (s : S) : Type 0 where
    pub source_read : SourceRead m s
    pub created :
        (q : Pod)
        → restored_pod w (defaulted m) source ≡ ok q
        → (p : Pod) × (s₁ : S) × (w.create_pod q s ≡ (ok p, s₁))
          × (p.meta.name ≡ q.meta.name)
          × (stored s₁ ≡ stored s)

  -- the restored pod runs; the deletion of the source may fail
  pub record Running (m : PodMigration) (s : S) : Type 0 where
    pub restored : Pod
    pub restored_read :
        w.get_pod (key m.meta.namespace m.status.restored_pod_name) s ≡ (ok restored, s)
    pub runs : restored.status.phase ≡ PodPhase.running
    pub source_read : SourceRead m s
    pub s₁ : S
    pub deleted :
        (w.delete_pod source s ≡ (ok tt, s₁))
        ⊎ ((e : Error) × (w.delete_pod source s ≡ (err e, s₁)))
    pub keeps : stored s₁ ≡ stored s

  -- what a stage waits for
  abbrev pub Enabled : Stage → PodMigration → S → Type 0
  Enabled requested m s = Startable m s
  Enabled checkpointing m s = Checkpointed m s
  Enabled checkpointed m s = Unit
  Enabled preparing m s = Convertible m s
  Enabled restoring m s = Restorable m s
  Enabled starting m s = Running m s
  Enabled completed m s = Unit

  -- the rounds of the migration of a key
  abbrev pub MigrationRounds : ObjectKey → S → ℕ → S → Type 0
  MigrationRounds k = Rounds (λ u. (reconcile w k u).1) stored (λ n. Enabled (after n))
