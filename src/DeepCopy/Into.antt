-- ===== src/DeepCopy/Into.antt =====
-- `DeepCopyInto` of each type: `f in` is what it writes to `*out`, which nobody reads before. A slice is
-- allocated with the elements that the loop then fills in.
use live_pod_migration.Base.{Option, none, some, List, [], ◌∷◌}
use live_pod_migration.Api.Lpm.{
  PodMigrationSpec, ContainerCheckpointSpec, ContainerCheckpointContentSpec,
}
use live_pod_migration.DeepCopy.Memory.{Address, Step, Slot, pure, ◌>>=◌, load, alloc}
use live_pod_migration.DeepCopy.Structs.{
  RawContainerCheckpointList, RawContainerCheckpointContentList, RawPodCheckpointList,
  RawPodCheckpointContentList, RawPodMigrationList, RawContainerCheckpointStatus, RawContentStatus,
  RawPodCheckpointSpec, RawPodCheckpointStatus, RawPodCheckpointContentSpec, RawPodMigrationStatus,
  RawContainerCheckpoint, RawContainerCheckpointContent, RawPodCheckpoint, RawPodCheckpointContent,
  RawPodMigration, Cell, Apimachinery,
}
use live_pod_migration.DeepCopy.Slots

-- `if in == nil { return nil }; out := new(…); in.DeepCopyInto(out); return out`, of a type that is
-- copied by `into`
unfoldable pub copy_pointer :
    {C A : Type 0} → Slot C A → (A → Step C A) → Option Address → Step C (Option Address)
copy_pointer slot into none = pure none
copy_pointer slot into (some p) = do a ← load slot p; b ← into a; q ← alloc slot b; pure (some q)

-- `for i := range *in { (*in)[i].DeepCopyInto(&(*out)[i]) }`
unfoldable pub copy_each : {C A : Type 0} → (A → Step C A) → List A → Step C (List A)
copy_each into [] = pure []
copy_each into (a ∷ rest) = do b ← into a; bs ← copy_each into rest; pure (b ∷ bs)

-- `if in.CreationTime != nil { … *out = (*in).DeepCopy() }`
unfoldable pub copy_time_pointer :
    {C M L V : Type 0} → Apimachinery C M L V → Option Address → Step C (Option Address)
copy_time_pointer api none = pure none
copy_time_pointer api (some p) = do q ← api.copy_time p; pure (some q)

module _ {F M L : Type 0} where
  unfoldable pub container_checkpoint_spec :
      ContainerCheckpointSpec → Step (Cell F M L) ContainerCheckpointSpec
  container_checkpoint_spec source = pure source

  unfoldable pub container_checkpoint_content_spec :
      ContainerCheckpointContentSpec → Step (Cell F M L) ContainerCheckpointContentSpec
  container_checkpoint_content_spec source = pure source

  unfoldable pub pod_migration_spec : PodMigrationSpec → Step (Cell F M L) PodMigrationSpec
  pod_migration_spec source = pure source

  -- `*out = new(string); **out = **in`
  unfoldable pub pod_checkpoint_spec : RawPodCheckpointSpec → Step (Cell F M L) RawPodCheckpointSpec
  unfolding copy_pointer
  pod_checkpoint_spec source = do
    name ← copy_pointer Slots.text pure source.pod_name
    pure (record source { pod_name = name })

  -- `make` and `copy`
  unfoldable pub pod_checkpoint_content_spec :
      RawPodCheckpointContentSpec → Step (Cell F M L) RawPodCheckpointContentSpec
  unfolding copy_pointer
  pod_checkpoint_content_spec source = do
    contents ← copy_pointer Slots.references pure source.container_contents
    pure (record source { container_contents = contents })

  -- The images of the status are not copied.
  unfoldable pub pod_migration_status :
      RawPodMigrationStatus → Step (Cell F M L) RawPodMigrationStatus
  unfolding copy_pointer
  pod_migration_status source = do
    ref ← copy_pointer Slots.reference pure source.pod_checkpoint_ref
    pure (record source { pod_checkpoint_ref = ref })

module _ {F M L V : Type 0} (api : Apimachinery (Cell F M L) M L V) where
  unfoldable pub container_checkpoint_status :
      RawContainerCheckpointStatus → Step (Cell F M L) RawContainerCheckpointStatus
  unfolding copy_time_pointer
  container_checkpoint_status source = do
    time ← copy_time_pointer api source.completion_time
    pure (record source { completion_time = time })

  unfoldable pub container_checkpoint_content_status :
      RawContentStatus → Step (Cell F M L) RawContentStatus
  unfolding copy_time_pointer
  container_checkpoint_content_status source = do
    time ← copy_time_pointer api source.creation_time
    pure (record source { creation_time = time })

  unfoldable pub pod_checkpoint_content_status :
      RawContentStatus → Step (Cell F M L) RawContentStatus
  unfolding copy_time_pointer
  pod_checkpoint_content_status source = do
    time ← copy_time_pointer api source.creation_time
    pure (record source { creation_time = time })

  unfoldable pub pod_checkpoint_status :
      RawPodCheckpointStatus → Step (Cell F M L) RawPodCheckpointStatus
  unfolding copy_time_pointer
  pod_checkpoint_status source = do
    creation ← copy_time_pointer api source.creation_time
    completion ← copy_time_pointer api source.completion_time
    pure (record source { creation_time = creation; completion_time = completion })

  unfoldable pub container_checkpoint :
      RawContainerCheckpoint M → Step (Cell F M L) (RawContainerCheckpoint M)
  unfolding container_checkpoint_status
  container_checkpoint source = do
    meta ← api.copy_meta source.meta
    status ← container_checkpoint_status source.status
    pure (record source { meta = meta; status = status })

  unfoldable pub container_checkpoint_content :
      RawContainerCheckpointContent M → Step (Cell F M L) (RawContainerCheckpointContent M)
  unfolding container_checkpoint_content_status
  container_checkpoint_content source = do
    meta ← api.copy_meta source.meta
    status ← container_checkpoint_content_status source.status
    pure (record source { meta = meta; status = status })

  unfoldable pub pod_checkpoint : RawPodCheckpoint M → Step (Cell F M L) (RawPodCheckpoint M)
  unfolding pod_checkpoint_spec pod_checkpoint_status
  pod_checkpoint source = do
    meta ← api.copy_meta source.meta
    spec ← pod_checkpoint_spec source.spec
    status ← pod_checkpoint_status source.status
    pure (record source { meta = meta; spec = spec; status = status })

  unfoldable pub pod_checkpoint_content :
      RawPodCheckpointContent M → Step (Cell F M L) (RawPodCheckpointContent M)
  unfolding pod_checkpoint_content_spec pod_checkpoint_content_status
  pod_checkpoint_content source = do
    meta ← api.copy_meta source.meta
    spec ← pod_checkpoint_content_spec source.spec
    status ← pod_checkpoint_content_status source.status
    pure (record source { meta = meta; spec = spec; status = status })

  unfoldable pub pod_migration : RawPodMigration M → Step (Cell F M L) (RawPodMigration M)
  unfolding pod_migration_status
  pod_migration source = do
    meta ← api.copy_meta source.meta
    status ← pod_migration_status source.status
    pure (record source { meta = meta; status = status })

  unfoldable pub container_checkpoint_list :
      RawContainerCheckpointList L → Step (Cell F M L) (RawContainerCheckpointList L)
  unfolding copy_pointer copy_each container_checkpoint
  container_checkpoint_list source = do
    list_meta ← api.copy_list_meta source.list_meta
    items ← copy_pointer Slots.container_checkpoints (copy_each container_checkpoint) source.items
    pure (record source { list_meta = list_meta; items = items })

  unfoldable pub container_checkpoint_content_list :
      RawContainerCheckpointContentList L → Step (Cell F M L) (RawContainerCheckpointContentList L)
  unfolding copy_pointer copy_each container_checkpoint_content
  container_checkpoint_content_list source = do
    list_meta ← api.copy_list_meta source.list_meta
    items ←
        copy_pointer Slots.container_checkpoint_contents (copy_each container_checkpoint_content)
          source.items
    pure (record source { list_meta = list_meta; items = items })

  unfoldable pub pod_checkpoint_list :
      RawPodCheckpointList L → Step (Cell F M L) (RawPodCheckpointList L)
  unfolding copy_pointer copy_each pod_checkpoint
  pod_checkpoint_list source = do
    list_meta ← api.copy_list_meta source.list_meta
    items ← copy_pointer Slots.pod_checkpoints (copy_each pod_checkpoint) source.items
    pure (record source { list_meta = list_meta; items = items })

  unfoldable pub pod_checkpoint_content_list :
      RawPodCheckpointContentList L → Step (Cell F M L) (RawPodCheckpointContentList L)
  unfolding copy_pointer copy_each pod_checkpoint_content
  pod_checkpoint_content_list source = do
    list_meta ← api.copy_list_meta source.list_meta
    items ←
        copy_pointer Slots.pod_checkpoint_contents (copy_each pod_checkpoint_content) source.items
    pure (record source { list_meta = list_meta; items = items })

  unfoldable pub pod_migration_list :
      RawPodMigrationList L → Step (Cell F M L) (RawPodMigrationList L)
  unfolding copy_pointer copy_each pod_migration
  pod_migration_list source = do
    list_meta ← api.copy_list_meta source.list_meta
    items ← copy_pointer Slots.pod_migrations (copy_each pod_migration) source.items
    pure (record source { list_meta = list_meta; items = items })
