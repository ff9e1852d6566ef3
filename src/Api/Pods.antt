-- ===== src/Api/Pods.antt =====
-- api/v1/podcheckpoint_types.go and api/v1/podcheckpointcontent_types.go.
use pod_checkpoint_controlle.Prelude.{ℕ, String, Bool, Option, List}
use pod_checkpoint_controlle.Api.Meta.{ObjectMeta}

pub record PodCheckpointSource : Type 0 where
  pub pod_name : Option String
  pub pod_checkpoint_content_name : Option String

pub record PodCheckpointSpec : Type 0 where
  pub source : PodCheckpointSource
  pub deletion_policy : String

pub record PodCheckpointStatus : Type 0 where
  pub bound_pod_checkpoint_content_name : Option String
  pub checkpoint_time : Option ℕ
  pub ready_to_restore : Bool
  pub error_message : String

pub record PodCheckpoint : Type 0 where
  pub metadata : ObjectMeta
  pub spec : PodCheckpointSpec
  pub status : PodCheckpointStatus

pub record PodCheckpointRef : Type 0 where
  pub name : String
  pub namespace : String

pub record ContainerCheckpointReference : Type 0 where
  pub container_name : String
  pub container_checkpoint_content_name : String

pub record PodCheckpointContentSpec : Type 0 where
  pub pod_checkpoint_ref : Option PodCheckpointRef
  pub deletion_policy : String
  pub pod_uid : String
  pub pod_namespace : String
  pub pod_name : String
  pub storage_location : String
  pub container_checkpoints : List ContainerCheckpointReference

pub record PodCheckpointContentStatus : Type 0 where
  pub checkpoint_time : Option ℕ
  pub ready_to_restore : Bool
  pub error_message : String

pub record PodCheckpointContent : Type 0 where
  pub metadata : ObjectMeta
  pub spec : PodCheckpointContentSpec
  pub status : PodCheckpointContentStatus
