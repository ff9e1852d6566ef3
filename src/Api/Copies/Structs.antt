-- ===== src/Api/Copies/Structs.antt =====
-- The structs of api/v1 as they lie in memory: a pointer is nil or an address, and so is a slice,
-- which points to its array. `M` and `N` are `metav1.ObjectMeta` and `metav1.ListMeta`. The type
-- metadata are left out, as in the other files of Api.
use pod_checkpoint_controlle.Prelude.{ℕ, String, Bool, Option}
use pod_checkpoint_controlle.Api.Migrations.{PodMigrationSpec, PodMigrationStatus}

abbrev pub Pointer : Type 0
Pointer = Option ℕ

-- What the five kinds have in common, and their lists.
pub record ObjectStruct (M S T : Type 0) : Type 0 where
  pub metadata : M
  pub spec : S
  pub status : T

pub record ListStruct (N : Type 0) : Type 0 where
  pub metadata : N
  pub items : Pointer

pub record ContainerCheckpointSourceStruct : Type 0 where
  pub pod_name : Pointer
  pub container_name : Pointer
  pub container_checkpoint_content_name : Pointer

pub record ContainerCheckpointSpecStruct : Type 0 where
  pub source : ContainerCheckpointSourceStruct
  pub deletion_policy : String

pub record ContainerCheckpointStatusStruct : Type 0 where
  pub bound_container_checkpoint_content_name : Pointer
  pub ready_to_restore : Bool
  pub error_message : String
  pub checkpoint_time : Pointer

pub record ContainerCheckpointContentSpecStruct : Type 0 where
  pub container_checkpoint_ref : Pointer
  pub deletion_policy : String
  pub storage_location : String

pub record ContainerCheckpointContentStatusStruct : Type 0 where
  pub ready_to_restore : Bool
  pub error_message : String
  pub checkpoint_time : Pointer

pub record PodCheckpointSourceStruct : Type 0 where
  pub pod_name : Pointer
  pub pod_checkpoint_content_name : Pointer

pub record PodCheckpointSpecStruct : Type 0 where
  pub source : PodCheckpointSourceStruct
  pub deletion_policy : String

pub record PodCheckpointStatusStruct : Type 0 where
  pub bound_pod_checkpoint_content_name : Pointer
  pub checkpoint_time : Pointer
  pub ready_to_restore : Bool
  pub error_message : String

pub record PodCheckpointContentSpecStruct : Type 0 where
  pub pod_checkpoint_ref : Pointer
  pub deletion_policy : String
  pub pod_uid : String
  pub pod_namespace : String
  pub pod_name : String
  pub storage_location : String
  pub container_checkpoints : Pointer

pub record PodCheckpointContentStatusStruct : Type 0 where
  pub checkpoint_time : Pointer
  pub ready_to_restore : Bool
  pub error_message : String

abbrev pub ContainerCheckpointStruct : Type 0 → Type 0
ContainerCheckpointStruct M =
    ObjectStruct M ContainerCheckpointSpecStruct ContainerCheckpointStatusStruct

abbrev pub ContainerCheckpointContentStruct : Type 0 → Type 0
ContainerCheckpointContentStruct M =
    ObjectStruct M ContainerCheckpointContentSpecStruct ContainerCheckpointContentStatusStruct

abbrev pub PodCheckpointStruct : Type 0 → Type 0
PodCheckpointStruct M = ObjectStruct M PodCheckpointSpecStruct PodCheckpointStatusStruct

abbrev pub PodCheckpointContentStruct : Type 0 → Type 0
PodCheckpointContentStruct M =
    ObjectStruct M PodCheckpointContentSpecStruct PodCheckpointContentStatusStruct

abbrev pub PodMigrationStruct : Type 0 → Type 0
PodMigrationStruct M = ObjectStruct M PodMigrationSpec PodMigrationStatus
