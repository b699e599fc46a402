-- ===== src/DeepCopy/Values.antt =====
-- What the Go values of api/v1 are worth in a memory: the objects of the model, with their pointers
-- followed. Where the model does not tell nil from an empty slice, the slice is given with it.
use live_pod_migration.Base.{Option, none, some, List, []}
use live_pod_migration.Effect.{maybe}
use live_pod_migration.Api.Core.{LocalObjectReference}
use live_pod_migration.Api.Lpm.{
  PodMigration, PodMigrationStatus, PodCheckpoint, PodCheckpointSpec, PodCheckpointStatus,
  ContainerCheckpoint, ContainerCheckpointStatus, ContentStatus, PodCheckpointContent,
  PodCheckpointContentSpec, ContainerCheckpointContent,
}
use live_pod_migration.DeepCopy.Memory.{Address}
use live_pod_migration.DeepCopy.Structs.{
  TypeMeta, RawList, RawContainerCheckpointStatus, RawContentStatus, RawPodCheckpointSpec,
  RawPodCheckpointStatus, RawPodCheckpointContentSpec, RawPodMigrationStatus,
  RawContainerCheckpoint, RawContainerCheckpointContent, RawPodCheckpoint, RawPodCheckpointContent,
  RawPodMigration, Cell, Apimachinery,
}
use live_pod_migration.DeepCopy.Slots
use live_pod_migration.DeepCopy.Laws.{Value, pointed, each, time_pointed}

-- a value without pointers
abbrev pub flat : {C A : Type 0} → Value C A A
flat a m = some a

module _ {F M L : Type 0} where
  abbrev pub pod_checkpoint_spec : Value (Cell F M L) RawPodCheckpointSpec PodCheckpointSpec
  pod_checkpoint_spec x m =
      maybe (pointed Slots.text flat x.pod_name m) none (λ name. some (record { pod_name = name }))

  abbrev pub pod_checkpoint_content_spec :
      Value
        (Cell F M L)
        RawPodCheckpointContentSpec
        (PodCheckpointContentSpec × Option (List LocalObjectReference))
  pod_checkpoint_content_spec x m =
      maybe (pointed Slots.references flat x.container_contents m) none (λ contents. some (
        record {
          pod_checkpoint_ref = x.pod_checkpoint_ref;
          pod_namespace = x.pod_namespace;
          pod_name = x.pod_name;
          container_contents = maybe contents [] (λ refs. refs);
        },
        contents,
      ))

  -- a status but for its images, and the address of these
  abbrev pub pod_migration_status :
      Value (Cell F M L) RawPodMigrationStatus (PodMigrationStatus × Option Address)
  pod_migration_status x m =
      maybe (pointed Slots.reference flat x.pod_checkpoint_ref m) none (λ ref. some (
        record {
          phase = x.phase;
          message = x.message;
          pod_checkpoint_ref = ref;
          restored_pod_name = x.restored_pod_name;
          checkpoint_images = none;
        },
        x.checkpoint_images,
      ))

module _ {F M L V : Type 0} (api : Apimachinery (Cell F M L) M L V) where
  abbrev pub container_checkpoint_status :
      Value (Cell F M L) RawContainerCheckpointStatus ContainerCheckpointStatus
  container_checkpoint_status x m = maybe (time_pointed api x.completion_time m) none (λ time.
      some (record {
        phase = x.phase;
        message = x.message;
        bound_content_name = x.bound_content_name;
        ready = x.ready;
        completion_time = time;
      }))

  abbrev pub content_status : Value (Cell F M L) RawContentStatus ContentStatus
  content_status x m =
      maybe (time_pointed api x.creation_time m) none
        (λ time. some (record { ready = x.ready; message = x.message; creation_time = time }))

  abbrev pub pod_checkpoint_status : Value (Cell F M L) RawPodCheckpointStatus PodCheckpointStatus
  pod_checkpoint_status x m = maybe (time_pointed api x.creation_time m) none (λ creation.
      maybe (time_pointed api x.completion_time m) none (λ completion. some (record {
        phase = x.phase;
        message = x.message;
        ready = x.ready;
        bound_content_name = x.bound_content_name;
        creation_time = creation;
        completion_time = completion;
      })))

  abbrev pub container_checkpoint :
      Value (Cell F M L) (RawContainerCheckpoint M) (TypeMeta × ContainerCheckpoint)
  container_checkpoint x m = maybe (api.meta_value x.meta m) none (λ meta.
      maybe (container_checkpoint_status x.status m) none
        (λ status. some (x.type_meta, record { meta = meta; spec = x.spec; status = status })))

  abbrev pub container_checkpoint_content :
      Value (Cell F M L) (RawContainerCheckpointContent M) (TypeMeta × ContainerCheckpointContent)
  container_checkpoint_content x m = maybe (api.meta_value x.meta m) none (λ meta.
      maybe (content_status x.status m) none
        (λ status. some (x.type_meta, record { meta = meta; spec = x.spec; status = status })))

  abbrev pub pod_checkpoint : Value (Cell F M L) (RawPodCheckpoint M) (TypeMeta × PodCheckpoint)
  pod_checkpoint x m = maybe (api.meta_value x.meta m) none (λ meta.
      maybe (pod_checkpoint_spec x.spec m) none (λ spec.
        maybe (pod_checkpoint_status x.status m) none
          (λ status. some (x.type_meta, record { meta = meta; spec = spec; status = status }))))

  abbrev pub pod_checkpoint_content :
      Value
        (Cell F M L)
        (RawPodCheckpointContent M)
        (TypeMeta × PodCheckpointContent × Option (List LocalObjectReference))
  pod_checkpoint_content x m = maybe (api.meta_value x.meta m) none (λ meta.
      maybe (pod_checkpoint_content_spec x.spec m) none (λ spec.
        maybe (content_status x.status m) none (λ status.
          some (x.type_meta, record { meta = meta; spec = spec.0; status = status }, spec.1))))

  abbrev pub pod_migration :
      Value (Cell F M L) (RawPodMigration M) (TypeMeta × PodMigration × Option Address)
  pod_migration x m = maybe (api.meta_value x.meta m) none (λ meta.
      maybe (pod_migration_status x.status m) none (λ status.
        some (x.type_meta, record { meta = meta; spec = x.spec; status = status.0 }, status.1)))

  abbrev pub container_checkpoint_list :
      Value (Cell F M L) (RawList L) (TypeMeta × V × Option (List (TypeMeta × ContainerCheckpoint)))
  container_checkpoint_list x m = maybe (api.list_meta_value x.list_meta m) none (λ meta.
      maybe (pointed Slots.container_checkpoints (each container_checkpoint) x.items m) none
        (λ items. some (x.type_meta, meta, items)))

  abbrev pub container_checkpoint_content_list :
      Value
        (Cell F M L)
        (RawList L)
        (TypeMeta × V × Option (List (TypeMeta × ContainerCheckpointContent)))
  container_checkpoint_content_list x m = maybe (api.list_meta_value x.list_meta m) none (λ meta.
      maybe
        (pointed Slots.container_checkpoint_contents (each container_checkpoint_content) x.items m)
        none (λ items. some (x.type_meta, meta, items)))

  abbrev pub pod_checkpoint_list :
      Value (Cell F M L) (RawList L) (TypeMeta × V × Option (List (TypeMeta × PodCheckpoint)))
  pod_checkpoint_list x m = maybe (api.list_meta_value x.list_meta m) none (λ meta.
      maybe (pointed Slots.pod_checkpoints (each pod_checkpoint) x.items m) none
        (λ items. some (x.type_meta, meta, items)))

  abbrev pub pod_checkpoint_content_list : Value (Cell F M L) (RawList L) (
      TypeMeta
      × V
      × Option (List (TypeMeta × PodCheckpointContent × Option (List LocalObjectReference))))
  pod_checkpoint_content_list x m = maybe (api.list_meta_value x.list_meta m) none (λ meta.
      maybe (pointed Slots.pod_checkpoint_contents (each pod_checkpoint_content) x.items m) none
        (λ items. some (x.type_meta, meta, items)))

  abbrev pub pod_migration_list :
      Value
        (Cell F M L)
        (RawList L)
        (TypeMeta × V × Option (List (TypeMeta × PodMigration × Option Address)))
  pod_migration_list x m = maybe (api.list_meta_value x.list_meta m) none (λ meta.
      maybe (pointed Slots.pod_migrations (each pod_migration) x.items m) none
        (λ items. some (x.type_meta, meta, items)))
