-- ===== src/World.antt =====
-- What the program calls and does not implement: the Kubernetes client of controller-runtime, the
-- gRPC transport and the clock, as operations on an unknown state `S`. Any of them may fail, and any
-- of them may find the state changed by others: nothing is assumed here.
pub mod Trace
pub mod Calls
pub mod Working
use live_pod_migration.Base.{ℕ, String, List}
use live_pod_migration.Effect.{Action}
use live_pod_migration.Api.Core.{Time, ObjectKey, OwnerReference, ObjectMeta, Pod, Node}
use live_pod_migration.Api.Lpm.{
  PodMigration, PodCheckpoint, PodCheckpointContent, ContainerCheckpoint,
  ContainerCheckpointContent,
}
use live_pod_migration.Api.Rpc.{
  CheckpointRequest, CheckpointResponse, ConvertRequest, ConvertResponse,
}

-- `Get`, `List`, `Create`, `Status().Update` and `Delete` by the type of their object. A write
-- answers with the object as the server returned it, which Go decodes into its argument.
pub record World (S : Type 0) : Type 0 where
  pub get_pod : ObjectKey → Action S Pod
  pub create_pod : Pod → Action S Pod
  pub delete_pod : Pod → Action S (Unit {0})
  pub get_node : ObjectKey → Action S Node
  pub get_migration : ObjectKey → Action S PodMigration
  pub update_migration : PodMigration → Action S PodMigration
  pub get_pod_checkpoint : ObjectKey → Action S PodCheckpoint
  pub create_pod_checkpoint : PodCheckpoint → Action S PodCheckpoint
  pub update_pod_checkpoint : PodCheckpoint → Action S PodCheckpoint
  pub get_pod_content : ObjectKey → Action S PodCheckpointContent
  pub create_pod_content : PodCheckpointContent → Action S PodCheckpointContent
  pub update_pod_content : PodCheckpointContent → Action S PodCheckpointContent
  pub get_container_checkpoint : ObjectKey → Action S ContainerCheckpoint
  pub create_container_checkpoint : ContainerCheckpoint → Action S ContainerCheckpoint
  pub update_container_checkpoint : ContainerCheckpoint → Action S ContainerCheckpoint
  -- `InNamespace` the first, `MatchingLabels{"podcheckpoint": …}` the second
  pub list_container_checkpoints : String → String → Action S (List ContainerCheckpoint)
  pub get_container_content : ObjectKey → Action S ContainerCheckpointContent
  pub create_container_content : ContainerCheckpointContent → Action S ContainerCheckpointContent
  -- `metav1.NewControllerRef(owner, lpmv1.GroupVersion.WithKind(kind))`
  pub controller_ref : ObjectMeta → String → OwnerReference
  -- `metav1.Now()`, `time.Now()`
  pub now : Action S Time
  -- `grpc.NewClient` and `Close`; a connection is known by a number
  pub dial : String → Action S ℕ
  pub hang_up : ℕ → Action S (Unit {0})
  pub checkpoint_rpc : ℕ → CheckpointRequest → Action S CheckpointResponse
  pub convert_rpc : ℕ → ConvertRequest → Action S ConvertResponse
