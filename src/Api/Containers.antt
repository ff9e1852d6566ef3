-- ===== src/Api/Containers.antt =====
-- api/v1/containercheckpoint_types.go and api/v1/containercheckpointcontent_types.go.
use pod_checkpoint_controlle.Prelude.{ℕ, String, Bool, Option}
use pod_checkpoint_controlle.Api.Meta.{ObjectMeta}

-- Pointer fields are options: nil is `none`.
pub record ContainerCheckpointSource : Type 0 where
  pub pod_name : Option String
  pub container_name : Option String
  pub container_checkpoint_content_name : Option String

pub record ContainerCheckpointSpec : Type 0 where
  pub source : ContainerCheckpointSource
  pub deletion_policy : String

pub record ContainerCheckpointStatus : Type 0 where
  pub bound_container_checkpoint_content_name : Option String
  pub ready_to_restore : Bool
  pub error_message : String
  pub checkpoint_time : Option ℕ

pub record ContainerCheckpoint : Type 0 where
  pub metadata : ObjectMeta
  pub spec : ContainerCheckpointSpec
  pub status : ContainerCheckpointStatus

pub record ContainerCheckpointRef : Type 0 where
  pub name : String
  pub namespace : String

pub record ContainerCheckpointContentSpec : Type 0 where
  pub container_checkpoint_ref : Option ContainerCheckpointRef
  pub deletion_policy : String
  pub storage_location : String

pub record ContainerCheckpointContentStatus : Type 0 where
  pub ready_to_restore : Bool
  pub error_message : String
  pub checkpoint_time : Option ℕ

pub record ContainerCheckpointContent : Type 0 where
  pub metadata : ObjectMeta
  pub spec : ContainerCheckpointContentSpec
  pub status : ContainerCheckpointContentStatus
