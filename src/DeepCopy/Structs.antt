-- ===== src/DeepCopy/Structs.antt =====
-- The Go values of api/v1 in memory: a field that is a pointer, a slice or a map has the address of
-- what it leads to, or `none` for nil. `M` and `L` are the values of ObjectMeta and ListMeta and `F`
-- what else apimachinery keeps in a cell, all three unknown.
use live_pod_migration.Base.{String, Bool, Option, List}
use live_pod_migration.Base.Maps.{StringMap}
use live_pod_migration.Api.Core.{Time, ObjectMeta, ObjectReference, LocalObjectReference}
use live_pod_migration.Api.Lpm.{
  MigrationPhase, CheckpointPhase, PodMigrationSpec, ContainerCheckpointSpec,
  ContainerCheckpointContentSpec,
}
use live_pod_migration.DeepCopy.Memory.{Address, Step}

pub record TypeMeta : Type 0 where
  pub kind : String
  pub api_version : String

-- the four fields of a resource
pub record Resource (M Spec Status : Type 0) : Type 0 where
  pub type_meta : TypeMeta
  pub meta : M
  pub spec : Spec
  pub status : Status

-- the three of a list of resources
pub record RawList (L : Type 0) : Type 0 where
  pub type_meta : TypeMeta
  pub list_meta : L
  pub items : Option Address

pub record RawContainerCheckpointStatus : Type 0 where
  pub phase : CheckpointPhase
  pub message : String
  pub bound_content_name : String
  pub ready : Bool
  pub completion_time : Option Address

pub record RawContentStatus : Type 0 where
  pub ready : Bool
  pub message : String
  pub creation_time : Option Address

pub record RawPodCheckpointSpec : Type 0 where
  pub pod_name : Option Address

pub record RawPodCheckpointStatus : Type 0 where
  pub phase : CheckpointPhase
  pub message : String
  pub ready : Bool
  pub bound_content_name : String
  pub creation_time : Option Address
  pub completion_time : Option Address

pub record RawPodCheckpointContentSpec : Type 0 where
  pub pod_checkpoint_ref : ObjectReference
  pub pod_namespace : String
  pub pod_name : String
  pub container_contents : Option Address

pub record RawPodMigrationStatus : Type 0 where
  pub phase : MigrationPhase
  pub message : String
  pub pod_checkpoint_ref : Option Address
  pub restored_pod_name : String
  pub checkpoint_images : Option Address

abbrev pub RawContainerCheckpoint : Type 0 → Type 0
RawContainerCheckpoint M = Resource M ContainerCheckpointSpec RawContainerCheckpointStatus

abbrev pub RawContainerCheckpointContent : Type 0 → Type 0
RawContainerCheckpointContent M = Resource M ContainerCheckpointContentSpec RawContentStatus

abbrev pub RawPodCheckpoint : Type 0 → Type 0
RawPodCheckpoint M = Resource M RawPodCheckpointSpec RawPodCheckpointStatus

abbrev pub RawPodCheckpointContent : Type 0 → Type 0
RawPodCheckpointContent M = Resource M RawPodCheckpointContentSpec RawContentStatus

abbrev pub RawPodMigration : Type 0 → Type 0
RawPodMigration M = Resource M PodMigrationSpec RawPodMigrationStatus

abbrev pub RawContainerCheckpointList : Type 0 → Type 0
RawContainerCheckpointList L = RawList L

abbrev pub RawContainerCheckpointContentList : Type 0 → Type 0
RawContainerCheckpointContentList L = RawList L

abbrev pub RawPodCheckpointList : Type 0 → Type 0
RawPodCheckpointList L = RawList L

abbrev pub RawPodCheckpointContentList : Type 0 → Type 0
RawPodCheckpointContentList L = RawList L

abbrev pub RawPodMigrationList : Type 0 → Type 0
RawPodMigrationList L = RawList L

-- What a cell may hold: the pointees, the arrays of the slices and the maps.
pub data Cell (F M L : Type 0) : Type 0 where
  text_cell : String → Cell F M L
  reference_cell : LocalObjectReference → Cell F M L
  references_cell : (List LocalObjectReference) → Cell F M L
  images_cell : StringMap → Cell F M L
  foreign_cell : F → Cell F M L
  container_checkpoints_cell : List (RawContainerCheckpoint M) → Cell F M L
  container_checkpoint_contents_cell : List (RawContainerCheckpointContent M) → Cell F M L
  pod_checkpoints_cell : List (RawPodCheckpoint M) → Cell F M L
  pod_checkpoint_contents_cell : List (RawPodCheckpointContent M) → Cell F M L
  pod_migrations_cell : List (RawPodMigration M) → Cell F M L
  container_checkpoint_cell : (RawContainerCheckpoint M) → Cell F M L
  container_checkpoint_spec_cell : ContainerCheckpointSpec → Cell F M L
  container_checkpoint_status_cell : RawContainerCheckpointStatus → Cell F M L
  container_checkpoint_list_cell : (RawList L) → Cell F M L
  container_checkpoint_content_cell : (RawContainerCheckpointContent M) → Cell F M L
  container_checkpoint_content_spec_cell : ContainerCheckpointContentSpec → Cell F M L
  container_checkpoint_content_status_cell : RawContentStatus → Cell F M L
  container_checkpoint_content_list_cell : (RawList L) → Cell F M L
  pod_checkpoint_cell : (RawPodCheckpoint M) → Cell F M L
  pod_checkpoint_spec_cell : RawPodCheckpointSpec → Cell F M L
  pod_checkpoint_status_cell : RawPodCheckpointStatus → Cell F M L
  pod_checkpoint_list_cell : (RawList L) → Cell F M L
  pod_checkpoint_content_cell : (RawPodCheckpointContent M) → Cell F M L
  pod_checkpoint_content_spec_cell : RawPodCheckpointContentSpec → Cell F M L
  pod_checkpoint_content_status_cell : RawContentStatus → Cell F M L
  pod_checkpoint_content_list_cell : (RawList L) → Cell F M L
  pod_migration_cell : (RawPodMigration M) → Cell F M L
  pod_migration_spec_cell : PodMigrationSpec → Cell F M L
  pod_migration_status_cell : RawPodMigrationStatus → Cell F M L
  pod_migration_list_cell : (RawList L) → Cell F M L

-- How apimachinery copies what is its own, and what its values are worth: `ObjectMeta`, `ListMeta` and
-- the pointees of `*metav1.Time`.
pub record Apimachinery (C M L V : Type 0) : Type 0 where
  pub copy_meta : M → Step C M
  pub meta_value : M → List C → Option ObjectMeta
  pub copy_list_meta : L → Step C L
  pub list_meta_value : L → List C → Option V
  pub copy_time : Address → Step C Address
  pub time_value : Address → List C → Option Time
