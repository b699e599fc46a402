-- ===== src/Api/Lpm.antt =====
-- api/v1: the five custom resources. Go's phases are strings; `unset` is the empty one and
-- `other_phase` any that the program does not name.
use live_pod_migration.Base.{String, Bool, Option, List}
use live_pod_migration.Base.Maps.{StringMap}
use live_pod_migration.Api.Core.{Time, ObjectMeta, ObjectReference, LocalObjectReference}

pub data MigrationPhase : Type 0 where
  unset pending checkpointing checkpoint_complete preparing_images restoring : MigrationPhase
  succeeded failed : MigrationPhase
  other_phase : String → MigrationPhase

pub record PodMigrationSpec : Type 0 where
  pub pod_name : String
  pub target_node : String

pub record PodMigrationStatus : Type 0 where
  pub phase : MigrationPhase
  pub message : String
  pub pod_checkpoint_ref : Option LocalObjectReference
  pub restored_pod_name : String
  pub checkpoint_images : Option StringMap

pub record PodMigration : Type 0 where
  pub meta : ObjectMeta
  pub spec : PodMigrationSpec
  pub status : PodMigrationStatus

-- The values that `PodCheckpointPhase` and `ContainerCheckpointPhase` share.
pub data CheckpointPhase : Type 0 where
  unset pending running succeeded failed : CheckpointPhase
  other_phase : String → CheckpointPhase

abbrev pub PodCheckpointPhase : Type 0
PodCheckpointPhase = CheckpointPhase

abbrev pub ContainerCheckpointPhase : Type 0
ContainerCheckpointPhase = CheckpointPhase

pub record PodCheckpointSpec : Type 0 where
  pub pod_name : Option String

pub record PodCheckpointStatus : Type 0 where
  pub phase : PodCheckpointPhase
  pub message : String
  pub ready : Bool
  pub bound_content_name : String
  pub creation_time : Option Time
  pub completion_time : Option Time

pub record PodCheckpoint : Type 0 where
  pub meta : ObjectMeta
  pub spec : PodCheckpointSpec
  pub status : PodCheckpointStatus

pub record ContainerCheckpointSpec : Type 0 where
  pub pod_name : String
  pub container_name : String

pub record ContainerCheckpointStatus : Type 0 where
  pub phase : ContainerCheckpointPhase
  pub message : String
  pub bound_content_name : String
  pub ready : Bool
  pub completion_time : Option Time

pub record ContainerCheckpoint : Type 0 where
  pub meta : ObjectMeta
  pub spec : ContainerCheckpointSpec
  pub status : ContainerCheckpointStatus

-- The fields that `PodCheckpointContentStatus` and `ContainerCheckpointContentStatus` share.
pub record ContentStatus : Type 0 where
  pub ready : Bool
  pub message : String
  pub creation_time : Option Time

abbrev pub PodCheckpointContentStatus : Type 0
PodCheckpointContentStatus = ContentStatus

abbrev pub ContainerCheckpointContentStatus : Type 0
ContainerCheckpointContentStatus = ContentStatus

pub record PodCheckpointContentSpec : Type 0 where
  pub pod_checkpoint_ref : ObjectReference
  pub pod_namespace : String
  pub pod_name : String
  pub container_contents : List LocalObjectReference

pub record PodCheckpointContent : Type 0 where
  pub meta : ObjectMeta
  pub spec : PodCheckpointContentSpec
  pub status : PodCheckpointContentStatus

pub record ContainerCheckpointContentSpec : Type 0 where
  pub container_checkpoint_ref : ObjectReference
  pub pod_namespace : String
  pub pod_name : String
  pub container_name : String
  pub artifact_uri : String

pub record ContainerCheckpointContent : Type 0 where
  pub meta : ObjectMeta
  pub spec : ContainerCheckpointContentSpec
  pub status : ContainerCheckpointContentStatus
