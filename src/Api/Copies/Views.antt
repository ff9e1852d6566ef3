-- ===== src/Api/Copies/Views.antt =====
-- What the structs of `Api.Copies.Structs` denote, as the types of api/v1 that the other files use;
-- and when their pointers point to cells in use.
use pod_checkpoint_controlle.Prelude.{Option, none, some, List, []}
use pod_checkpoint_controlle.Api.Containers.{
  ContainerCheckpointSource, ContainerCheckpointSpec, ContainerCheckpointStatus,
  ContainerCheckpointContentSpec, ContainerCheckpointContentStatus,
}
use pod_checkpoint_controlle.Api.Pods.{
  PodCheckpointSource, PodCheckpointSpec, PodCheckpointStatus, PodCheckpointContentSpec,
  PodCheckpointContentStatus,
}
use pod_checkpoint_controlle.Api.Copies.Structs.{
  ContainerCheckpointSourceStruct, ContainerCheckpointSpecStruct, ContainerCheckpointStatusStruct,
  ContainerCheckpointContentSpecStruct, ContainerCheckpointContentStatusStruct,
  PodCheckpointSourceStruct, PodCheckpointSpecStruct, PodCheckpointStatusStruct,
  PodCheckpointContentSpecStruct, PodCheckpointContentStatusStruct,
}
use pod_checkpoint_controlle.Api.Copies.Heap.{
  Cell, Heap, text_of, time_of, container_checkpoint_ref_of, pod_checkpoint_ref_of, references_of,
}
use pod_checkpoint_controlle.Api.Copies.Independence.{seen, IsSeen, cell_as, InUse}

-- A nil slice has no elements.
abbrev pub elements : {A : Type 0} → Option (List A) → List A
elements none = []
elements (some l) = l

module _ {M O : Type 0} where
  abbrev pub container_checkpoint_source_at :
      ContainerCheckpointSourceStruct → Heap (Cell M O) → ContainerCheckpointSource
  container_checkpoint_source_at x h = record {
    pod_name = seen (cell_as text_of) x.pod_name h;
    container_name = seen (cell_as text_of) x.container_name h;
    container_checkpoint_content_name =
        seen (cell_as text_of) x.container_checkpoint_content_name h;
  }

  abbrev pub ContainerCheckpointSourceIsIn :
      ContainerCheckpointSourceStruct → Heap (Cell M O) → Type 0
  ContainerCheckpointSourceIsIn x h =
      IsSeen InUse x.pod_name h
      × (IsSeen InUse x.container_name h × IsSeen InUse x.container_checkpoint_content_name h)

  abbrev pub container_checkpoint_spec_at :
      ContainerCheckpointSpecStruct → Heap (Cell M O) → ContainerCheckpointSpec
  container_checkpoint_spec_at x h = record {
    source = container_checkpoint_source_at x.source h;
    deletion_policy = x.deletion_policy;
  }

  abbrev pub ContainerCheckpointSpecIsIn : ContainerCheckpointSpecStruct → Heap (Cell M O) → Type 0
  ContainerCheckpointSpecIsIn x h = ContainerCheckpointSourceIsIn x.source h

  abbrev pub container_checkpoint_status_at :
      ContainerCheckpointStatusStruct → Heap (Cell M O) → ContainerCheckpointStatus
  container_checkpoint_status_at x h = record {
    bound_container_checkpoint_content_name =
        seen (cell_as text_of) x.bound_container_checkpoint_content_name h;
    ready_to_restore = x.ready_to_restore;
    error_message = x.error_message;
    checkpoint_time = seen (cell_as time_of) x.checkpoint_time h;
  }

  abbrev pub ContainerCheckpointStatusIsIn :
      ContainerCheckpointStatusStruct → Heap (Cell M O) → Type 0
  ContainerCheckpointStatusIsIn x h =
      IsSeen InUse x.bound_container_checkpoint_content_name h × IsSeen InUse x.checkpoint_time h

  abbrev pub container_checkpoint_content_spec_at :
      ContainerCheckpointContentSpecStruct → Heap (Cell M O) → ContainerCheckpointContentSpec
  container_checkpoint_content_spec_at x h = record {
    container_checkpoint_ref =
        seen (cell_as container_checkpoint_ref_of) x.container_checkpoint_ref h;
    deletion_policy = x.deletion_policy;
    storage_location = x.storage_location;
  }

  abbrev pub ContainerCheckpointContentSpecIsIn :
      ContainerCheckpointContentSpecStruct → Heap (Cell M O) → Type 0
  ContainerCheckpointContentSpecIsIn x h = IsSeen InUse x.container_checkpoint_ref h

  abbrev pub container_checkpoint_content_status_at :
      ContainerCheckpointContentStatusStruct → Heap (Cell M O) → ContainerCheckpointContentStatus
  container_checkpoint_content_status_at x h = record {
    ready_to_restore = x.ready_to_restore;
    error_message = x.error_message;
    checkpoint_time = seen (cell_as time_of) x.checkpoint_time h;
  }

  abbrev pub ContainerCheckpointContentStatusIsIn :
      ContainerCheckpointContentStatusStruct → Heap (Cell M O) → Type 0
  ContainerCheckpointContentStatusIsIn x h = IsSeen InUse x.checkpoint_time h

  abbrev pub pod_checkpoint_source_at :
      PodCheckpointSourceStruct → Heap (Cell M O) → PodCheckpointSource
  pod_checkpoint_source_at x h = record {
    pod_name = seen (cell_as text_of) x.pod_name h;
    pod_checkpoint_content_name = seen (cell_as text_of) x.pod_checkpoint_content_name h;
  }

  abbrev pub PodCheckpointSourceIsIn : PodCheckpointSourceStruct → Heap (Cell M O) → Type 0
  PodCheckpointSourceIsIn x h =
      IsSeen InUse x.pod_name h × IsSeen InUse x.pod_checkpoint_content_name h

  abbrev pub pod_checkpoint_spec_at : PodCheckpointSpecStruct → Heap (Cell M O) → PodCheckpointSpec
  pod_checkpoint_spec_at x h = record {
    source = pod_checkpoint_source_at x.source h;
    deletion_policy = x.deletion_policy;
  }

  abbrev pub PodCheckpointSpecIsIn : PodCheckpointSpecStruct → Heap (Cell M O) → Type 0
  PodCheckpointSpecIsIn x h = PodCheckpointSourceIsIn x.source h

  abbrev pub pod_checkpoint_status_at :
      PodCheckpointStatusStruct → Heap (Cell M O) → PodCheckpointStatus
  pod_checkpoint_status_at x h = record {
    bound_pod_checkpoint_content_name =
        seen (cell_as text_of) x.bound_pod_checkpoint_content_name h;
    checkpoint_time = seen (cell_as time_of) x.checkpoint_time h;
    ready_to_restore = x.ready_to_restore;
    error_message = x.error_message;
  }

  abbrev pub PodCheckpointStatusIsIn : PodCheckpointStatusStruct → Heap (Cell M O) → Type 0
  PodCheckpointStatusIsIn x h =
      IsSeen InUse x.bound_pod_checkpoint_content_name h × IsSeen InUse x.checkpoint_time h

  abbrev pub pod_checkpoint_content_spec_at :
      PodCheckpointContentSpecStruct → Heap (Cell M O) → PodCheckpointContentSpec
  pod_checkpoint_content_spec_at x h = record {
    pod_checkpoint_ref = seen (cell_as pod_checkpoint_ref_of) x.pod_checkpoint_ref h;
    deletion_policy = x.deletion_policy;
    pod_uid = x.pod_uid;
    pod_namespace = x.pod_namespace;
    pod_name = x.pod_name;
    storage_location = x.storage_location;
    container_checkpoints = elements (seen (cell_as references_of) x.container_checkpoints h);
  }

  abbrev pub PodCheckpointContentSpecIsIn :
      PodCheckpointContentSpecStruct → Heap (Cell M O) → Type 0
  PodCheckpointContentSpecIsIn x h =
      IsSeen InUse x.pod_checkpoint_ref h × IsSeen InUse x.container_checkpoints h

  abbrev pub pod_checkpoint_content_status_at :
      PodCheckpointContentStatusStruct → Heap (Cell M O) → PodCheckpointContentStatus
  pod_checkpoint_content_status_at x h = record {
    checkpoint_time = seen (cell_as time_of) x.checkpoint_time h;
    ready_to_restore = x.ready_to_restore;
    error_message = x.error_message;
  }

  abbrev pub PodCheckpointContentStatusIsIn :
      PodCheckpointContentStatusStruct → Heap (Cell M O) → Type 0
  PodCheckpointContentStatusIsIn x h = IsSeen InUse x.checkpoint_time h
