-- ===== src/Api/Copies/Receivers.antt =====
-- api/v1/zz_generated.deepcopy.go: for each struct T, `T_copy` is `DeepCopy`; `DeepCopyObject` is the
-- same, with the result as a `runtime.Object`.
use pod_checkpoint_controlle.Prelude.{Option}
use pod_checkpoint_controlle.Api.Containers.{ContainerCheckpointRef}
use pod_checkpoint_controlle.Api.Pods.{PodCheckpointRef, ContainerCheckpointReference}
use pod_checkpoint_controlle.Api.Migrations.{PodMigrationSpec, PodMigrationStatus}
use pod_checkpoint_controlle.Api.Copies.Structs.{
  ListStruct, ContainerCheckpointSourceStruct, ContainerCheckpointSpecStruct,
  ContainerCheckpointStatusStruct, ContainerCheckpointContentSpecStruct,
  ContainerCheckpointContentStatusStruct, PodCheckpointSourceStruct, PodCheckpointSpecStruct,
  PodCheckpointStatusStruct, PodCheckpointContentSpecStruct, PodCheckpointContentStatusStruct,
  ContainerCheckpointStruct, ContainerCheckpointContentStruct, PodCheckpointStruct,
  PodCheckpointContentStruct, PodMigrationStruct,
}
use pod_checkpoint_controlle.Api.Copies.Heap.{Cell}
use pod_checkpoint_controlle.Api.Copies.Copying.{
  Into, Metav1, when_set, shallow, container_checkpoint_source_into, container_checkpoint_spec_into,
  container_checkpoint_status_into, container_checkpoint_content_spec_into,
  container_checkpoint_content_status_into, pod_checkpoint_source_into, pod_checkpoint_spec_into,
  pod_checkpoint_status_into, pod_checkpoint_content_spec_into, pod_checkpoint_content_status_into,
  container_checkpoint_into, container_checkpoint_content_into, pod_checkpoint_into,
  pod_checkpoint_content_into, pod_migration_into,
}
use pod_checkpoint_controlle.Api.Copies.Lists.{
  container_checkpoint_list_into, container_checkpoint_content_list_into, pod_checkpoint_list_into,
  pod_checkpoint_content_list_into, pod_migration_list_into,
}

module _ {C : Type 0} where
  abbrev pub container_checkpoint_ref_copy : Into C (Option ContainerCheckpointRef)
  container_checkpoint_ref_copy = when_set shallow

  abbrev pub container_checkpoint_reference_copy : Into C (Option ContainerCheckpointReference)
  container_checkpoint_reference_copy = when_set shallow

  abbrev pub pod_checkpoint_ref_copy : Into C (Option PodCheckpointRef)
  pod_checkpoint_ref_copy = when_set shallow

  abbrev pub pod_migration_spec_copy : Into C (Option PodMigrationSpec)
  pod_migration_spec_copy = when_set shallow

  abbrev pub pod_migration_status_copy : Into C (Option PodMigrationStatus)
  pod_migration_status_copy = when_set shallow

module _ {M N O : Type 0} (L : Metav1 M N O) where
  abbrev pub container_checkpoint_source_copy :
      Into (Cell M O) (Option ContainerCheckpointSourceStruct)
  container_checkpoint_source_copy = when_set (container_checkpoint_source_into L)

  abbrev pub container_checkpoint_spec_copy : Into (Cell M O) (Option ContainerCheckpointSpecStruct)
  container_checkpoint_spec_copy = when_set (container_checkpoint_spec_into L)

  abbrev pub container_checkpoint_status_copy :
      Into (Cell M O) (Option ContainerCheckpointStatusStruct)
  container_checkpoint_status_copy = when_set (container_checkpoint_status_into L)

  abbrev pub container_checkpoint_content_spec_copy :
      Into (Cell M O) (Option ContainerCheckpointContentSpecStruct)
  container_checkpoint_content_spec_copy = when_set (container_checkpoint_content_spec_into L)

  abbrev pub container_checkpoint_content_status_copy :
      Into (Cell M O) (Option ContainerCheckpointContentStatusStruct)
  container_checkpoint_content_status_copy = when_set (container_checkpoint_content_status_into L)

  abbrev pub pod_checkpoint_source_copy : Into (Cell M O) (Option PodCheckpointSourceStruct)
  pod_checkpoint_source_copy = when_set (pod_checkpoint_source_into L)

  abbrev pub pod_checkpoint_spec_copy : Into (Cell M O) (Option PodCheckpointSpecStruct)
  pod_checkpoint_spec_copy = when_set (pod_checkpoint_spec_into L)

  abbrev pub pod_checkpoint_status_copy : Into (Cell M O) (Option PodCheckpointStatusStruct)
  pod_checkpoint_status_copy = when_set (pod_checkpoint_status_into L)

  abbrev pub pod_checkpoint_content_spec_copy :
      Into (Cell M O) (Option PodCheckpointContentSpecStruct)
  pod_checkpoint_content_spec_copy = when_set (pod_checkpoint_content_spec_into L)

  abbrev pub pod_checkpoint_content_status_copy :
      Into (Cell M O) (Option PodCheckpointContentStatusStruct)
  pod_checkpoint_content_status_copy = when_set (pod_checkpoint_content_status_into L)

  abbrev pub container_checkpoint_copy : Into (Cell M O) (Option (ContainerCheckpointStruct M))
  container_checkpoint_copy = when_set (container_checkpoint_into L)

  abbrev pub container_checkpoint_list_copy : Into (Cell M O) (Option (ListStruct N))
  container_checkpoint_list_copy = when_set (container_checkpoint_list_into L)

  abbrev pub container_checkpoint_content_copy :
      Into (Cell M O) (Option (ContainerCheckpointContentStruct M))
  container_checkpoint_content_copy = when_set (container_checkpoint_content_into L)

  abbrev pub container_checkpoint_content_list_copy : Into (Cell M O) (Option (ListStruct N))
  container_checkpoint_content_list_copy = when_set (container_checkpoint_content_list_into L)

  abbrev pub pod_checkpoint_copy : Into (Cell M O) (Option (PodCheckpointStruct M))
  pod_checkpoint_copy = when_set (pod_checkpoint_into L)

  abbrev pub pod_checkpoint_list_copy : Into (Cell M O) (Option (ListStruct N))
  pod_checkpoint_list_copy = when_set (pod_checkpoint_list_into L)

  abbrev pub pod_checkpoint_content_copy : Into (Cell M O) (Option (PodCheckpointContentStruct M))
  pod_checkpoint_content_copy = when_set (pod_checkpoint_content_into L)

  abbrev pub pod_checkpoint_content_list_copy : Into (Cell M O) (Option (ListStruct N))
  pod_checkpoint_content_list_copy = when_set (pod_checkpoint_content_list_into L)

  abbrev pub pod_migration_copy : Into (Cell M O) (Option (PodMigrationStruct M))
  pod_migration_copy = when_set (pod_migration_into L)

  abbrev pub pod_migration_list_copy : Into (Cell M O) (Option (ListStruct N))
  pod_migration_list_copy = when_set (pod_migration_list_into L)
