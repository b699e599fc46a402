-- ===== src/Api/Rpc.antt =====
-- api/proto: the messages of the checkpoint service.
use live_pod_migration.Base.{String, Bool}

pub record CheckpointRequest : Type 0 where
  pub pod_namespace : String
  pub pod_name : String
  pub container_name : String
  pub pod_uid : String

pub record CheckpointResponse : Type 0 where
  pub success : Bool
  pub artifact_uri : String
  pub message : String
  pub error : String

pub record ConvertRequest : Type 0 where
  pub checkpoint_path : String
  pub container_name : String
  pub image_name : String

pub record ConvertResponse : Type 0 where
  pub success : Bool
  pub image_reference : String
  pub message : String
  pub error : String

pub record HealthResponse : Type 0 where
  pub healthy : Bool
  pub message : String
