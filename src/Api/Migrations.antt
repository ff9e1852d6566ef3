-- ===== src/Api/Migrations.antt =====
-- api/v1/podmigration_types.go.
use pod_checkpoint_controlle.Prelude.{String}
use pod_checkpoint_controlle.Api.Meta.{ObjectMeta}

-- `PodMigrationPhase` is a string type: its constants, the empty string of a new object, and any
-- other text.
pub data PodMigrationPhase : Type 0 where
  unset pending checkpointing restoring succeeded failed : PodMigrationPhase
  unknown : String → PodMigrationPhase

pub record PodMigrationSpec : Type 0 where
  pub source_pod_name : String
  pub target_node : String

pub record PodMigrationStatus : Type 0 where
  pub phase : PodMigrationPhase
  pub message : String
  pub bound_checkpoint_name : String
  pub restored_pod_name : String

pub record PodMigration : Type 0 where
  pub metadata : ObjectMeta
  pub spec : PodMigrationSpec
  pub status : PodMigrationStatus
