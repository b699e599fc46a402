-- ===== src/DeepCopy/Object.antt =====
-- `DeepCopyObject` of each type.
use live_pod_migration.Base.{String, Option, none, some}
use live_pod_migration.Effect.{maybe}
use live_pod_migration.DeepCopy.Memory.{Address, Step, pure, ◌>>=◌}
use live_pod_migration.DeepCopy.Structs.{Cell, Apimachinery}
use live_pod_migration.DeepCopy.New

-- a `runtime.Object` that is not nil: its dynamic type and its pointer
pub record RuntimeObject : Type 0 where
  pub type : String
  pub pointer : Address

-- `if c := in.DeepCopy(); c != nil { return c }; return nil`
unfoldable pub as_object :
    {C : Type 0}
    → String
    → (Option Address → Step C (Option Address))
    → Option Address
    → Step C (Option RuntimeObject)
as_object type copy p = do
  c ← copy p
  maybe c (pure none) (λ q. pure (some (record { type = type; pointer = q })))

module _ {F M L V : Type 0} (api : Apimachinery (Cell F M L) M L V) where
  unfoldable pub container_checkpoint : Option Address → Step (Cell F M L) (Option RuntimeObject)
  unfolding as_object New.container_checkpoint
  container_checkpoint = as_object "ContainerCheckpoint" (New.container_checkpoint api)

  unfoldable pub container_checkpoint_list :
      Option Address → Step (Cell F M L) (Option RuntimeObject)
  unfolding as_object New.container_checkpoint_list
  container_checkpoint_list =
      as_object "ContainerCheckpointList" (New.container_checkpoint_list api)

  unfoldable pub container_checkpoint_content :
      Option Address → Step (Cell F M L) (Option RuntimeObject)
  unfolding as_object New.container_checkpoint_content
  container_checkpoint_content =
      as_object "ContainerCheckpointContent" (New.container_checkpoint_content api)

  unfoldable pub container_checkpoint_content_list :
      Option Address → Step (Cell F M L) (Option RuntimeObject)
  unfolding as_object New.container_checkpoint_content_list
  container_checkpoint_content_list =
      as_object "ContainerCheckpointContentList" (New.container_checkpoint_content_list api)

  unfoldable pub pod_checkpoint : Option Address → Step (Cell F M L) (Option RuntimeObject)
  unfolding as_object New.pod_checkpoint
  pod_checkpoint = as_object "PodCheckpoint" (New.pod_checkpoint api)

  unfoldable pub pod_checkpoint_list : Option Address → Step (Cell F M L) (Option RuntimeObject)
  unfolding as_object New.pod_checkpoint_list
  pod_checkpoint_list = as_object "PodCheckpointList" (New.pod_checkpoint_list api)

  unfoldable pub pod_checkpoint_content : Option Address → Step (Cell F M L) (Option RuntimeObject)
  unfolding as_object New.pod_checkpoint_content
  pod_checkpoint_content = as_object "PodCheckpointContent" (New.pod_checkpoint_content api)

  unfoldable pub pod_checkpoint_content_list :
      Option Address → Step (Cell F M L) (Option RuntimeObject)
  unfolding as_object New.pod_checkpoint_content_list
  pod_checkpoint_content_list =
      as_object "PodCheckpointContentList" (New.pod_checkpoint_content_list api)

  unfoldable pub pod_migration : Option Address → Step (Cell F M L) (Option RuntimeObject)
  unfolding as_object New.pod_migration
  pod_migration = as_object "PodMigration" (New.pod_migration api)

  unfoldable pub pod_migration_list : Option Address → Step (Cell F M L) (Option RuntimeObject)
  unfolding as_object New.pod_migration_list
  pod_migration_list = as_object "PodMigrationList" (New.pod_migration_list api)
