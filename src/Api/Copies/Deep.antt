-- ===== src/Api/Copies/Deep.antt =====
-- `DeepCopy` of api/v1/zz_generated.deepcopy.go copies deeply: the lists, and what a caller sees.
use pod_checkpoint_controlle.Prelude.{◌≡◌, refl, Option, List}
use pod_checkpoint_controlle.Api.Copies.Structs.{
  Pointer, ListStruct, ContainerCheckpointContentStruct,
}
use pod_checkpoint_controlle.Api.Copies.Heap.{
  Cell, Heap, Above, Extends, container_checkpoints_of, container_checkpoints_array,
  container_checkpoint_contents_of, container_checkpoint_contents_array, pod_checkpoints_of,
  pod_checkpoints_array, pod_checkpoint_contents_of, pod_checkpoint_contents_array,
  pod_migrations_of, pod_migrations_array,
}
use pod_checkpoint_controlle.Api.Copies.Copying.{Into, Metav1, list_into}
use pod_checkpoint_controlle.Api.Copies.Lists.{
  container_checkpoint_list_into, container_checkpoint_content_list_into, pod_checkpoint_list_into,
  pod_checkpoint_content_list_into, pod_migration_list_into,
}
use pod_checkpoint_controlle.Api.Copies.Receivers.{
  container_checkpoint_copy, container_checkpoint_list_copy, container_checkpoint_content_copy,
  container_checkpoint_content_list_copy, pod_checkpoint_copy, pod_checkpoint_list_copy,
  pod_checkpoint_content_copy, pod_checkpoint_content_list_copy, pod_migration_copy,
  pod_migration_list_copy,
}
use pod_checkpoint_controlle.Api.Copies.Independence.{
  Copies, both-Copies, struct-Copies, seen, IsSeen, array_as, IsArrayIn, array-Copies,
  when_set-Copies,
}
use pod_checkpoint_controlle.Api.Copies.Parts.{CopiesMeta}
use pod_checkpoint_controlle.Api.Copies.Objects.{
  container_checkpoint_at, ContainerCheckpointIsIn, container_checkpoint-Copies,
  container_checkpoint_content_at, ContainerCheckpointContentIsIn,
  container_checkpoint_content-Copies, pod_checkpoint_at, PodCheckpointIsIn, pod_checkpoint-Copies,
  pod_checkpoint_content_at, PodCheckpointContentIsIn, pod_checkpoint_content-Copies,
  pod_migration_at, PodMigrationIsIn, pod_migration-Copies,
}

list-Copies :
    {C N V W : Type 0} {f : Into C N} {g : Into C Pointer} {view_f : N → Heap C → V}
    {view_g : Pointer → Heap C → W} {IsIn_f : N → Heap C → Type 0}
    {IsIn_g : Pointer → Heap C → Type 0}
    → Copies f view_f IsIn_f
    → Copies g view_g IsIn_g
    → Copies {V = V × W}
        (list_into f g)
        (λ x h. (view_f x.metadata h, view_g x.items h))
        (λ x h. IsIn_f x.metadata h × IsIn_g x.items h)
unfolding list_into
list-Copies F G =
    struct-Copies (λ x. (x.metadata, x.items)) (λ x y. record { metadata = y.0; items = y.1 })
      (λ x v. v) (λ x y. refl) (λ x y v. refl) (both-Copies F G)

module _ {M N O : Type 0} {L : Metav1 M N O} (D : CopiesMeta L) where
  -- A list denotes its metadata and its items, if they are not nil.
  abbrev pub list_at :
      {S V : Type 0}
      → (Cell M O → List S)
      → (S → Heap (Cell M O) → V)
      → ListStruct N
      → Heap (Cell M O)
      → D.ListMeta × Option (List V)
  list_at array_of view x h = (D.list_meta_at x.metadata h, seen (array_as array_of view) x.items h)

  abbrev pub ListIsIn :
      {S : Type 0}
      → (Cell M O → List S)
      → (S → Heap (Cell M O) → Type 0)
      → ListStruct N
      → Heap (Cell M O)
      → Type 0
  ListIsIn array_of IsIn x h =
      D.ListMetaIsIn x.metadata h × IsSeen (IsArrayIn array_of IsIn) x.items h

  container_checkpoint_list-Copies :
      Copies
        (container_checkpoint_list_into L)
        (list_at container_checkpoints_of (container_checkpoint_at D))
        (ListIsIn container_checkpoints_of (ContainerCheckpointIsIn D))
  unfolding container_checkpoint_list_into
  container_checkpoint_list-Copies = list-Copies D.list_meta-Copies (
      when_set-Copies (
        array-Copies container_checkpoints_of container_checkpoints_array (λ l. refl)
          (container_checkpoint-Copies D)))

  container_checkpoint_content_list-Copies :
      Copies
        (container_checkpoint_content_list_into L)
        (list_at container_checkpoint_contents_of (container_checkpoint_content_at D))
        (ListIsIn container_checkpoint_contents_of (ContainerCheckpointContentIsIn D))
  unfolding container_checkpoint_content_list_into
  container_checkpoint_content_list-Copies = list-Copies D.list_meta-Copies (
      when_set-Copies (
        array-Copies container_checkpoint_contents_of container_checkpoint_contents_array
          (λ l. refl) (container_checkpoint_content-Copies D)))

  pod_checkpoint_list-Copies :
      Copies
        (pod_checkpoint_list_into L)
        (list_at pod_checkpoints_of (pod_checkpoint_at D))
        (ListIsIn pod_checkpoints_of (PodCheckpointIsIn D))
  unfolding pod_checkpoint_list_into
  pod_checkpoint_list-Copies = list-Copies D.list_meta-Copies (
      when_set-Copies (
        array-Copies pod_checkpoints_of pod_checkpoints_array (λ l. refl)
          (pod_checkpoint-Copies D)))

  pod_checkpoint_content_list-Copies :
      Copies
        (pod_checkpoint_content_list_into L)
        (list_at pod_checkpoint_contents_of (pod_checkpoint_content_at D))
        (ListIsIn pod_checkpoint_contents_of (PodCheckpointContentIsIn D))
  unfolding pod_checkpoint_content_list_into
  pod_checkpoint_content_list-Copies = list-Copies D.list_meta-Copies (
      when_set-Copies (
        array-Copies pod_checkpoint_contents_of pod_checkpoint_contents_array (λ l. refl)
          (pod_checkpoint_content-Copies D)))

  pod_migration_list-Copies :
      Copies
        (pod_migration_list_into L)
        (list_at pod_migrations_of (pod_migration_at D))
        (ListIsIn pod_migrations_of (PodMigrationIsIn D))
  unfolding pod_migration_list_into
  pod_migration_list-Copies = list-Copies D.list_meta-Copies (
      when_set-Copies
        (array-Copies pod_migrations_of pod_migrations_array (λ l. refl) (pod_migration-Copies D)))

  -- `DeepCopy` of the kinds and of their lists.
  container_checkpoint_copy-Copies :
      Copies
        (container_checkpoint_copy L)
        (seen (container_checkpoint_at D))
        (IsSeen (ContainerCheckpointIsIn D))
  container_checkpoint_copy-Copies = when_set-Copies (container_checkpoint-Copies D)

  container_checkpoint_list_copy-Copies :
      Copies
        (container_checkpoint_list_copy L)
        (seen (list_at container_checkpoints_of (container_checkpoint_at D)))
        (IsSeen (ListIsIn container_checkpoints_of (ContainerCheckpointIsIn D)))
  container_checkpoint_list_copy-Copies = when_set-Copies container_checkpoint_list-Copies

  container_checkpoint_content_copy-Copies :
      Copies
        (container_checkpoint_content_copy L)
        (seen (container_checkpoint_content_at D))
        (IsSeen (ContainerCheckpointContentIsIn D))
  container_checkpoint_content_copy-Copies = when_set-Copies (container_checkpoint_content-Copies D)

  container_checkpoint_content_list_copy-Copies :
      Copies
        (container_checkpoint_content_list_copy L)
        (seen (list_at container_checkpoint_contents_of (container_checkpoint_content_at D)))
        (IsSeen (ListIsIn container_checkpoint_contents_of (ContainerCheckpointContentIsIn D)))
  container_checkpoint_content_list_copy-Copies =
      when_set-Copies container_checkpoint_content_list-Copies

  pod_checkpoint_copy-Copies :
      Copies (pod_checkpoint_copy L) (seen (pod_checkpoint_at D)) (IsSeen (PodCheckpointIsIn D))
  pod_checkpoint_copy-Copies = when_set-Copies (pod_checkpoint-Copies D)

  pod_checkpoint_list_copy-Copies :
      Copies
        (pod_checkpoint_list_copy L)
        (seen (list_at pod_checkpoints_of (pod_checkpoint_at D)))
        (IsSeen (ListIsIn pod_checkpoints_of (PodCheckpointIsIn D)))
  pod_checkpoint_list_copy-Copies = when_set-Copies pod_checkpoint_list-Copies

  pod_checkpoint_content_copy-Copies :
      Copies
        (pod_checkpoint_content_copy L)
        (seen (pod_checkpoint_content_at D))
        (IsSeen (PodCheckpointContentIsIn D))
  pod_checkpoint_content_copy-Copies = when_set-Copies (pod_checkpoint_content-Copies D)

  pod_checkpoint_content_list_copy-Copies :
      Copies
        (pod_checkpoint_content_list_copy L)
        (seen (list_at pod_checkpoint_contents_of (pod_checkpoint_content_at D)))
        (IsSeen (ListIsIn pod_checkpoint_contents_of (PodCheckpointContentIsIn D)))
  pod_checkpoint_content_list_copy-Copies = when_set-Copies pod_checkpoint_content_list-Copies

  pod_migration_copy-Copies :
      Copies (pod_migration_copy L) (seen (pod_migration_at D)) (IsSeen (PodMigrationIsIn D))
  pod_migration_copy-Copies = when_set-Copies (pod_migration-Copies D)

  pod_migration_list_copy-Copies :
      Copies
        (pod_migration_list_copy L)
        (seen (list_at pod_migrations_of (pod_migration_at D)))
        (IsSeen (ListIsIn pod_migrations_of (PodMigrationIsIn D)))
  pod_migration_list_copy-Copies = when_set-Copies pod_migration_list-Copies

  -- `DeepCopy` of a ContainerCheckpointContent, which the sidecar takes as the base of its patches:
  -- of nil, or of a struct whose pointers point to cells in use, where apimachinery's copies are
  -- deep, it changes no cell in use, and its result denotes the same object as the struct did, in every
  -- later memory that holds the same in the cells that the copy has taken, whatever was written to
  -- the struct's.
  pub container_checkpoint_content_copy_lem :
      (x : Option (ContainerCheckpointContentStruct M)) (h k : Heap (Cell M O))
      → IsSeen (ContainerCheckpointContentIsIn D) x h
      → Above h.next (container_checkpoint_content_copy L x h).1 k
      → Extends h (container_checkpoint_content_copy L x h).1
        × (seen (container_checkpoint_content_at D) (container_checkpoint_content_copy L x h).0 k
            ≡ seen (container_checkpoint_content_at D) x h)
  container_checkpoint_content_copy_lem x h k v above =
      let at_x = container_checkpoint_content_copy-Copies x in
      (at_x.extends h v, at_x.reads h k v above)

  -- `DeepCopy` of a list of PodCheckpointContents, likewise: of nil, or of a list whose array and whose
  -- items' pointers are in use, where apimachinery's copies are deep, it changes no cell in use, and
  -- its result denotes the same metadata and the same objects in the same order, in every later
  -- memory that holds the same in the cells that the copy has taken.
  pub pod_checkpoint_content_list_copy_lem :
      (x : Option (ListStruct N)) (h k : Heap (Cell M O))
      → IsSeen (ListIsIn pod_checkpoint_contents_of (PodCheckpointContentIsIn D)) x h
      → Above h.next (pod_checkpoint_content_list_copy L x h).1 k
      → Extends h (pod_checkpoint_content_list_copy L x h).1
        × (seen
              (list_at pod_checkpoint_contents_of (pod_checkpoint_content_at D))
              (pod_checkpoint_content_list_copy L x h).0
              k
            ≡ seen (list_at pod_checkpoint_contents_of (pod_checkpoint_content_at D)) x h)
  pod_checkpoint_content_list_copy_lem x h k v above =
      let at_x = pod_checkpoint_content_list_copy-Copies x in
      (at_x.extends h v, at_x.reads h k v above)
