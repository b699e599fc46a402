-- ===== src/Api/Core.antt =====
-- The Kubernetes objects that the program reads and writes, with the fields it uses. `rest` stands
-- for all the other fields of an object.
use live_pod_migration.Base.{ℕ, String, Bool, Option, List}
use live_pod_migration.Base.Maps.{StringMap}

abbrev pub Time : Type 0
Time = ℕ

pub record ObjectKey : Type 0 where
  pub namespace : String
  pub name : String

pub record OwnerReference : Type 0 where
  pub kind : String
  pub name : String
  pub uid : String
  pub controller : Bool

pub record ObjectMeta : Type 0 where
  pub name : String
  pub namespace : String
  pub uid : String
  pub resource_version : String
  pub labels : Option StringMap
  pub annotations : Option StringMap
  pub owner_references : List OwnerReference

pub record LocalObjectReference : Type 0 where
  pub name : String

pub record ObjectReference : Type 0 where
  pub namespace : String
  pub name : String

pub data PodPhase : Type 0 where
  pending running succeeded failed unknown : PodPhase

pub data PullPolicy : Type 0 where
  pull_always pull_never pull_if_not_present pull_unset : PullPolicy

pub record Container : Type 0 where
  pub name : String
  pub image : String
  pub image_pull_policy : PullPolicy
  pub rest : String

pub record PodSpec : Type 0 where
  pub containers : List Container
  pub node_name : String
  pub rest : String

pub record PodStatus : Type 0 where
  pub phase : PodPhase
  pub rest : String

pub record Pod : Type 0 where
  pub meta : ObjectMeta
  pub spec : PodSpec
  pub status : PodStatus

pub data AddressType : Type 0 where
  internal_ip hostname external_ip internal_dns external_dns : AddressType

pub record NodeAddress : Type 0 where
  pub type : AddressType
  pub address : String

pub record Node : Type 0 where
  pub meta : ObjectMeta
  pub addresses : List NodeAddress
