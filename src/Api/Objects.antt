-- ===== src/Api/Objects.antt =====
-- The kinds of objects in the program's scheme (api/v1/groupversion_info.go registers its own
-- types, client-go's scheme the pods), and what is common to them.
use pod_checkpoint_controlle.Prelude.{false, none}
use pod_checkpoint_controlle.Api.Meta.{ObjectMeta, Pod, not_running}
use pod_checkpoint_controlle.Api.Containers.{ContainerCheckpoint, ContainerCheckpointContent}
use pod_checkpoint_controlle.Api.Pods.{PodCheckpoint, PodCheckpointContent}
use pod_checkpoint_controlle.Api.Migrations.{PodMigration, unset}

pub data Kind : Type 0 where
  container_checkpoint container_checkpoint_content : Kind
  pod_checkpoint pod_checkpoint_content pod_migration pod : Kind

abbrev pub Object : Kind → Type 0
Object container_checkpoint = ContainerCheckpoint
Object container_checkpoint_content = ContainerCheckpointContent
Object pod_checkpoint = PodCheckpoint
Object pod_checkpoint_content = PodCheckpointContent
Object pod_migration = PodMigration
Object pod = Pod

abbrev pub metadata : (k : Kind) → Object k → ObjectMeta
metadata container_checkpoint o = o.metadata
metadata container_checkpoint_content o = o.metadata
metadata pod_checkpoint o = o.metadata
metadata pod_checkpoint_content o = o.metadata
metadata pod_migration o = o.metadata
metadata pod o = o.metadata

abbrev pub with_metadata : (k : Kind) → ObjectMeta → Object k → Object k
with_metadata container_checkpoint m o = record o { metadata = m }
with_metadata container_checkpoint_content m o = record o { metadata = m }
with_metadata pod_checkpoint m o = record o { metadata = m }
with_metadata pod_checkpoint_content m o = record o { metadata = m }
with_metadata pod_migration m o = record o { metadata = m }
with_metadata pod m o = record o { metadata = m }

-- The object `o` with the status of `p`.
abbrev pub with_status_of : (k : Kind) → Object k → Object k → Object k
with_status_of container_checkpoint p o = record o { status = p.status }
with_status_of container_checkpoint_content p o = record o { status = p.status }
with_status_of pod_checkpoint p o = record o { status = p.status }
with_status_of pod_checkpoint_content p o = record o { status = p.status }
with_status_of pod_migration p o = record o { status = p.status }
with_status_of pod p o = record o { status = p.status }

-- The object with the status that a new object has.
abbrev pub without_status : (k : Kind) → Object k → Object k
without_status container_checkpoint o = record o {
  status = record {
    bound_container_checkpoint_content_name = none;
    ready_to_restore = false;
    error_message = "";
    checkpoint_time = none;
  };
}
without_status container_checkpoint_content o = record o {
  status = record { ready_to_restore = false; error_message = ""; checkpoint_time = none };
}
without_status pod_checkpoint o = record o {
  status = record {
    bound_pod_checkpoint_content_name = none;
    checkpoint_time = none;
    ready_to_restore = false;
    error_message = "";
  };
}
without_status pod_checkpoint_content o = record o {
  status = record { checkpoint_time = none; ready_to_restore = false; error_message = "" };
}
without_status pod_migration o = record o {
  status = record {
    phase = unset;
    message = "";
    bound_checkpoint_name = "";
    restored_pod_name = "";
  };
}
without_status pod o = record o { status = record { phase = not_running "Pending"; pod_ip = "" } }
