-- ===== src/DeepCopy/New.antt =====
-- `DeepCopy` of each type.
use live_pod_migration.Base.{Option}
use live_pod_migration.DeepCopy.Memory.{Address, Step}
use live_pod_migration.DeepCopy.Structs.{Cell, Apimachinery}
use live_pod_migration.DeepCopy.Slots
use live_pod_migration.DeepCopy.Into
use live_pod_migration.DeepCopy.Into.{copy_pointer}

module _ {F M L : Type 0} where
  unfoldable pub container_checkpoint_spec : Option Address → Step (Cell F M L) (Option Address)
  unfolding copy_pointer Into.container_checkpoint_spec
  container_checkpoint_spec =
      copy_pointer Slots.container_checkpoint_spec Into.container_checkpoint_spec

  unfoldable pub container_checkpoint_content_spec :
      Option Address → Step (Cell F M L) (Option Address)
  unfolding copy_pointer Into.container_checkpoint_content_spec
  container_checkpoint_content_spec =
      copy_pointer Slots.container_checkpoint_content_spec Into.container_checkpoint_content_spec

  unfoldable pub pod_migration_spec : Option Address → Step (Cell F M L) (Option Address)
  unfolding copy_pointer Into.pod_migration_spec
  pod_migration_spec = copy_pointer Slots.pod_migration_spec Into.pod_migration_spec

  unfoldable pub pod_checkpoint_spec : Option Address → Step (Cell F M L) (Option Address)
  unfolding copy_pointer Into.pod_checkpoint_spec
  pod_checkpoint_spec = copy_pointer Slots.pod_checkpoint_spec Into.pod_checkpoint_spec

  unfoldable pub pod_checkpoint_content_spec : Option Address → Step (Cell F M L) (Option Address)
  unfolding copy_pointer Into.pod_checkpoint_content_spec
  pod_checkpoint_content_spec =
      copy_pointer Slots.pod_checkpoint_content_spec Into.pod_checkpoint_content_spec

  unfoldable pub pod_migration_status : Option Address → Step (Cell F M L) (Option Address)
  unfolding copy_pointer Into.pod_migration_status
  pod_migration_status = copy_pointer Slots.pod_migration_status Into.pod_migration_status

module _ {F M L V : Type 0} (api : Apimachinery (Cell F M L) M L V) where
  unfoldable pub container_checkpoint_status : Option Address → Step (Cell F M L) (Option Address)
  unfolding copy_pointer Into.container_checkpoint_status
  container_checkpoint_status =
      copy_pointer Slots.container_checkpoint_status (Into.container_checkpoint_status api)

  unfoldable pub container_checkpoint_content_status :
      Option Address → Step (Cell F M L) (Option Address)
  unfolding copy_pointer Into.container_checkpoint_content_status
  container_checkpoint_content_status =
      copy_pointer Slots.container_checkpoint_content_status
        (Into.container_checkpoint_content_status api)

  unfoldable pub pod_checkpoint_content_status : Option Address → Step (Cell F M L) (Option Address)
  unfolding copy_pointer Into.pod_checkpoint_content_status
  pod_checkpoint_content_status =
      copy_pointer Slots.pod_checkpoint_content_status (Into.pod_checkpoint_content_status api)

  unfoldable pub pod_checkpoint_status : Option Address → Step (Cell F M L) (Option Address)
  unfolding copy_pointer Into.pod_checkpoint_status
  pod_checkpoint_status = copy_pointer Slots.pod_checkpoint_status (Into.pod_checkpoint_status api)

  unfoldable pub container_checkpoint : Option Address → Step (Cell F M L) (Option Address)
  unfolding copy_pointer Into.container_checkpoint
  container_checkpoint = copy_pointer Slots.container_checkpoint (Into.container_checkpoint api)

  unfoldable pub container_checkpoint_list : Option Address → Step (Cell F M L) (Option Address)
  unfolding copy_pointer Into.container_checkpoint_list
  container_checkpoint_list =
      copy_pointer Slots.container_checkpoint_list (Into.container_checkpoint_list api)

  unfoldable pub container_checkpoint_content : Option Address → Step (Cell F M L) (Option Address)
  unfolding copy_pointer Into.container_checkpoint_content
  container_checkpoint_content =
      copy_pointer Slots.container_checkpoint_content (Into.container_checkpoint_content api)

  unfoldable pub container_checkpoint_content_list :
      Option Address → Step (Cell F M L) (Option Address)
  unfolding copy_pointer Into.container_checkpoint_content_list
  container_checkpoint_content_list =
      copy_pointer Slots.container_checkpoint_content_list
        (Into.container_checkpoint_content_list api)

  unfoldable pub pod_checkpoint : Option Address → Step (Cell F M L) (Option Address)
  unfolding copy_pointer Into.pod_checkpoint
  pod_checkpoint = copy_pointer Slots.pod_checkpoint (Into.pod_checkpoint api)

  unfoldable pub pod_checkpoint_list : Option Address → Step (Cell F M L) (Option Address)
  unfolding copy_pointer Into.pod_checkpoint_list
  pod_checkpoint_list = copy_pointer Slots.pod_checkpoint_list (Into.pod_checkpoint_list api)

  unfoldable pub pod_checkpoint_content : Option Address → Step (Cell F M L) (Option Address)
  unfolding copy_pointer Into.pod_checkpoint_content
  pod_checkpoint_content =
      copy_pointer Slots.pod_checkpoint_content (Into.pod_checkpoint_content api)

  unfoldable pub pod_checkpoint_content_list : Option Address → Step (Cell F M L) (Option Address)
  unfolding copy_pointer Into.pod_checkpoint_content_list
  pod_checkpoint_content_list =
      copy_pointer Slots.pod_checkpoint_content_list (Into.pod_checkpoint_content_list api)

  unfoldable pub pod_migration : Option Address → Step (Cell F M L) (Option Address)
  unfolding copy_pointer Into.pod_migration
  pod_migration = copy_pointer Slots.pod_migration (Into.pod_migration api)

  unfoldable pub pod_migration_list : Option Address → Step (Cell F M L) (Option Address)
  unfolding copy_pointer Into.pod_migration_list
  pod_migration_list = copy_pointer Slots.pod_migration_list (Into.pod_migration_list api)
