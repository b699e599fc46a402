-- ===== src/DeepCopy/Slots.antt =====
-- How the Go types of api/v1 are kept in the cells of the memory.
use live_pod_migration.Base.{String, refl, none, some, List}
use live_pod_migration.Base.Maps.{StringMap}
use live_pod_migration.Api.Core.{LocalObjectReference}
use live_pod_migration.Api.Lpm.{
  PodMigrationSpec, ContainerCheckpointSpec, ContainerCheckpointContentSpec,
}
use live_pod_migration.DeepCopy.Memory.{Slot}
use live_pod_migration.DeepCopy.Structs.{
  RawList, RawContainerCheckpointStatus, RawContentStatus, RawPodCheckpointSpec,
  RawPodCheckpointStatus, RawPodCheckpointContentSpec, RawPodMigrationStatus,
  RawContainerCheckpoint, RawContainerCheckpointContent, RawPodCheckpoint, RawPodCheckpointContent,
  RawPodMigration, Cell, text_cell, reference_cell, references_cell, images_cell,
  container_checkpoints_cell, container_checkpoint_contents_cell, pod_checkpoints_cell,
  pod_checkpoint_contents_cell, pod_migrations_cell, container_checkpoint_cell,
  container_checkpoint_spec_cell, container_checkpoint_status_cell, container_checkpoint_list_cell,
  container_checkpoint_content_cell, container_checkpoint_content_spec_cell,
  container_checkpoint_content_status_cell, container_checkpoint_content_list_cell,
  pod_checkpoint_cell, pod_checkpoint_spec_cell, pod_checkpoint_status_cell,
  pod_checkpoint_list_cell, pod_checkpoint_content_cell, pod_checkpoint_content_spec_cell,
  pod_checkpoint_content_status_cell, pod_checkpoint_content_list_cell, pod_migration_cell,
  pod_migration_spec_cell, pod_migration_status_cell, pod_migration_list_cell,
}

module _ {F M L : Type 0} where
  abbrev pub text : Slot (Cell F M L) String
  text = record {
    put = text_cell;
    take = λ c. elim c [ text_cell a ↦ some a | _ ↦ none ];
    back = λ a. refl;
  }

  abbrev pub reference : Slot (Cell F M L) LocalObjectReference
  reference = record {
    put = reference_cell;
    take = λ c. elim c [ reference_cell a ↦ some a | _ ↦ none ];
    back = λ a. refl;
  }

  abbrev pub references : Slot (Cell F M L) (List LocalObjectReference)
  references = record {
    put = references_cell;
    take = λ c. elim c [ references_cell a ↦ some a | _ ↦ none ];
    back = λ a. refl;
  }

  abbrev pub images : Slot (Cell F M L) StringMap
  images = record {
    put = images_cell;
    take = λ c. elim c [ images_cell a ↦ some a | _ ↦ none ];
    back = λ a. refl;
  }

  abbrev pub container_checkpoints : Slot (Cell F M L) (List (RawContainerCheckpoint M))
  container_checkpoints = record {
    put = container_checkpoints_cell;
    take = λ c. elim c [ container_checkpoints_cell a ↦ some a | _ ↦ none ];
    back = λ a. refl;
  }

  abbrev pub container_checkpoint_contents :
      Slot (Cell F M L) (List (RawContainerCheckpointContent M))
  container_checkpoint_contents = record {
    put = container_checkpoint_contents_cell;
    take = λ c. elim c [ container_checkpoint_contents_cell a ↦ some a | _ ↦ none ];
    back = λ a. refl;
  }

  abbrev pub pod_checkpoints : Slot (Cell F M L) (List (RawPodCheckpoint M))
  pod_checkpoints = record {
    put = pod_checkpoints_cell;
    take = λ c. elim c [ pod_checkpoints_cell a ↦ some a | _ ↦ none ];
    back = λ a. refl;
  }

  abbrev pub pod_checkpoint_contents : Slot (Cell F M L) (List (RawPodCheckpointContent M))
  pod_checkpoint_contents = record {
    put = pod_checkpoint_contents_cell;
    take = λ c. elim c [ pod_checkpoint_contents_cell a ↦ some a | _ ↦ none ];
    back = λ a. refl;
  }

  abbrev pub pod_migrations : Slot (Cell F M L) (List (RawPodMigration M))
  pod_migrations = record {
    put = pod_migrations_cell;
    take = λ c. elim c [ pod_migrations_cell a ↦ some a | _ ↦ none ];
    back = λ a. refl;
  }

  abbrev pub container_checkpoint : Slot (Cell F M L) (RawContainerCheckpoint M)
  container_checkpoint = record {
    put = container_checkpoint_cell;
    take = λ c. elim c [ container_checkpoint_cell a ↦ some a | _ ↦ none ];
    back = λ a. refl;
  }

  abbrev pub container_checkpoint_spec : Slot (Cell F M L) ContainerCheckpointSpec
  container_checkpoint_spec = record {
    put = container_checkpoint_spec_cell;
    take = λ c. elim c [ container_checkpoint_spec_cell a ↦ some a | _ ↦ none ];
    back = λ a. refl;
  }

  abbrev pub container_checkpoint_status : Slot (Cell F M L) RawContainerCheckpointStatus
  container_checkpoint_status = record {
    put = container_checkpoint_status_cell;
    take = λ c. elim c [ container_checkpoint_status_cell a ↦ some a | _ ↦ none ];
    back = λ a. refl;
  }

  abbrev pub container_checkpoint_list : Slot (Cell F M L) (RawList L)
  container_checkpoint_list = record {
    put = container_checkpoint_list_cell;
    take = λ c. elim c [ container_checkpoint_list_cell a ↦ some a | _ ↦ none ];
    back = λ a. refl;
  }

  abbrev pub container_checkpoint_content : Slot (Cell F M L) (RawContainerCheckpointContent M)
  container_checkpoint_content = record {
    put = container_checkpoint_content_cell;
    take = λ c. elim c [ container_checkpoint_content_cell a ↦ some a | _ ↦ none ];
    back = λ a. refl;
  }

  abbrev pub container_checkpoint_content_spec : Slot (Cell F M L) ContainerCheckpointContentSpec
  container_checkpoint_content_spec = record {
    put = container_checkpoint_content_spec_cell;
    take = λ c. elim c [ container_checkpoint_content_spec_cell a ↦ some a | _ ↦ none ];
    back = λ a. refl;
  }

  abbrev pub container_checkpoint_content_status : Slot (Cell F M L) RawContentStatus
  container_checkpoint_content_status = record {
    put = container_checkpoint_content_status_cell;
    take = λ c. elim c [ container_checkpoint_content_status_cell a ↦ some a | _ ↦ none ];
    back = λ a. refl;
  }

  abbrev pub container_checkpoint_content_list : Slot (Cell F M L) (RawList L)
  container_checkpoint_content_list = record {
    put = container_checkpoint_content_list_cell;
    take = λ c. elim c [ container_checkpoint_content_list_cell a ↦ some a | _ ↦ none ];
    back = λ a. refl;
  }

  abbrev pub pod_checkpoint : Slot (Cell F M L) (RawPodCheckpoint M)
  pod_checkpoint = record {
    put = pod_checkpoint_cell;
    take = λ c. elim c [ pod_checkpoint_cell a ↦ some a | _ ↦ none ];
    back = λ a. refl;
  }

  abbrev pub pod_checkpoint_spec : Slot (Cell F M L) RawPodCheckpointSpec
  pod_checkpoint_spec = record {
    put = pod_checkpoint_spec_cell;
    take = λ c. elim c [ pod_checkpoint_spec_cell a ↦ some a | _ ↦ none ];
    back = λ a. refl;
  }

  abbrev pub pod_checkpoint_status : Slot (Cell F M L) RawPodCheckpointStatus
  pod_checkpoint_status = record {
    put = pod_checkpoint_status_cell;
    take = λ c. elim c [ pod_checkpoint_status_cell a ↦ some a | _ ↦ none ];
    back = λ a. refl;
  }

  abbrev pub pod_checkpoint_list : Slot (Cell F M L) (RawList L)
  pod_checkpoint_list = record {
    put = pod_checkpoint_list_cell;
    take = λ c. elim c [ pod_checkpoint_list_cell a ↦ some a | _ ↦ none ];
    back = λ a. refl;
  }

  abbrev pub pod_checkpoint_content : Slot (Cell F M L) (RawPodCheckpointContent M)
  pod_checkpoint_content = record {
    put = pod_checkpoint_content_cell;
    take = λ c. elim c [ pod_checkpoint_content_cell a ↦ some a | _ ↦ none ];
    back = λ a. refl;
  }

  abbrev pub pod_checkpoint_content_spec : Slot (Cell F M L) RawPodCheckpointContentSpec
  pod_checkpoint_content_spec = record {
    put = pod_checkpoint_content_spec_cell;
    take = λ c. elim c [ pod_checkpoint_content_spec_cell a ↦ some a | _ ↦ none ];
    back = λ a. refl;
  }

  abbrev pub pod_checkpoint_content_status : Slot (Cell F M L) RawContentStatus
  pod_checkpoint_content_status = record {
    put = pod_checkpoint_content_status_cell;
    take = λ c. elim c [ pod_checkpoint_content_status_cell a ↦ some a | _ ↦ none ];
    back = λ a. refl;
  }

  abbrev pub pod_checkpoint_content_list : Slot (Cell F M L) (RawList L)
  pod_checkpoint_content_list = record {
    put = pod_checkpoint_content_list_cell;
    take = λ c. elim c [ pod_checkpoint_content_list_cell a ↦ some a | _ ↦ none ];
    back = λ a. refl;
  }

  abbrev pub pod_migration : Slot (Cell F M L) (RawPodMigration M)
  pod_migration = record {
    put = pod_migration_cell;
    take = λ c. elim c [ pod_migration_cell a ↦ some a | _ ↦ none ];
    back = λ a. refl;
  }

  abbrev pub pod_migration_spec : Slot (Cell F M L) PodMigrationSpec
  pod_migration_spec = record {
    put = pod_migration_spec_cell;
    take = λ c. elim c [ pod_migration_spec_cell a ↦ some a | _ ↦ none ];
    back = λ a. refl;
  }

  abbrev pub pod_migration_status : Slot (Cell F M L) RawPodMigrationStatus
  pod_migration_status = record {
    put = pod_migration_status_cell;
    take = λ c. elim c [ pod_migration_status_cell a ↦ some a | _ ↦ none ];
    back = λ a. refl;
  }

  abbrev pub pod_migration_list : Slot (Cell F M L) (RawList L)
  pod_migration_list = record {
    put = pod_migration_list_cell;
    take = λ c. elim c [ pod_migration_list_cell a ↦ some a | _ ↦ none ];
    back = λ a. refl;
  }
