-- ===== src/Api/Copies/Lists.antt =====
-- api/v1/zz_generated.deepcopy.go: the deep copies of the lists.
use pod_checkpoint_controlle.Api.Copies.Structs.{ListStruct}
use pod_checkpoint_controlle.Api.Copies.Heap.{
  Cell, container_checkpoints_array, container_checkpoint_contents_array, pod_checkpoints_array,
  pod_checkpoint_contents_array, pod_migrations_array, container_checkpoints_of,
  container_checkpoint_contents_of, pod_checkpoints_of, pod_checkpoint_contents_of,
  pod_migrations_of,
}
use pod_checkpoint_controlle.Api.Copies.Copying.{
  Into, Metav1, items_into, list_into, container_checkpoint_into, container_checkpoint_content_into,
  pod_checkpoint_into, pod_checkpoint_content_into, pod_migration_into,
}

module _ {M N O : Type 0} (L : Metav1 M N O) where
  open L use {list_meta_into}

  -- `DeepCopyInto` of the list of a kind.
  unfoldable pub container_checkpoint_list_into : Into (Cell M O) (ListStruct N)
  container_checkpoint_list_into = list_into list_meta_into (
      items_into container_checkpoints_of container_checkpoints_array (container_checkpoint_into L))

  unfoldable pub container_checkpoint_content_list_into : Into (Cell M O) (ListStruct N)
  container_checkpoint_content_list_into = list_into list_meta_into (
      items_into container_checkpoint_contents_of container_checkpoint_contents_array
        (container_checkpoint_content_into L))

  unfoldable pub pod_checkpoint_list_into : Into (Cell M O) (ListStruct N)
  pod_checkpoint_list_into =
      list_into list_meta_into
        (items_into pod_checkpoints_of pod_checkpoints_array (pod_checkpoint_into L))

  unfoldable pub pod_checkpoint_content_list_into : Into (Cell M O) (ListStruct N)
  pod_checkpoint_content_list_into = list_into list_meta_into (
      items_into pod_checkpoint_contents_of pod_checkpoint_contents_array
        (pod_checkpoint_content_into L))

  unfoldable pub pod_migration_list_into : Into (Cell M O) (ListStruct N)
  pod_migration_list_into =
      list_into list_meta_into
        (items_into pod_migrations_of pod_migrations_array (pod_migration_into L))
