-- ===== src/Api/Copies/Copying.antt =====
-- api/v1/zz_generated.deepcopy.go: for each struct T, `T_into` is `DeepCopyInto`, from the struct that
-- the receiver points to, and `T_copy` is `DeepCopy`. The copy starts as the struct itself, so a
-- field that is not mentioned is the same, and a pointer would be shared.
use pod_checkpoint_controlle.Prelude.{ℕ, Option, none, some, List, [], ◌∷◌}
use pod_checkpoint_controlle.Api.Copies.Structs.{
  Pointer, ObjectStruct, ListStruct, ContainerCheckpointSourceStruct, ContainerCheckpointSpecStruct,
  ContainerCheckpointStatusStruct, ContainerCheckpointContentSpecStruct,
  ContainerCheckpointContentStatusStruct, PodCheckpointSourceStruct, PodCheckpointSpecStruct,
  PodCheckpointStatusStruct, PodCheckpointContentSpecStruct, PodCheckpointContentStatusStruct,
  ContainerCheckpointStruct, ContainerCheckpointContentStruct, PodCheckpointStruct,
  PodCheckpointContentStruct, PodMigrationStruct,
}
use pod_checkpoint_controlle.Api.Copies.Heap.{Cell, Heap, alloc}

-- `in` and the memory, and what was written to `out`.
abbrev pub Into : Type 0 → Type 0 → Type 0
Into C S = S → Heap C → S × Heap C

-- The deep copies that apimachinery's `metav1` makes of its own types.
pub record Metav1 (M N O : Type 0) : Type 0 where
  pub time_copy : Into (Cell M O) ℕ
  pub object_meta_into : Into (Cell M O) M
  pub list_meta_into : Into (Cell M O) N

module _ {C : Type 0} where
  -- `*out = *in` alone.
  abbrev pub shallow : {S : Type 0} → Into C S
  shallow x h = (x, h)

  -- `if in != nil { ... }`, and nil else.
  unfoldable pub when_set : {S : Type 0} → Into C S → Into C (Option S)
  when_set into none h = (none, h)
  when_set into (some x) h = let (y, h') = into x h in (some y, h')

  -- `*out = new(T); **out = **in`; and of a slice `*out = make([]T, len(*in)); copy(*out, *in)`.
  abbrev pub new_cell : Into C ℕ
  new_cell a h = alloc (h.cell a) h

  abbrev pub fresh_cell : Into C Pointer
  fresh_cell = when_set new_cell

  -- `for i := range *in { (*in)[i].DeepCopyInto(&(*out)[i]) }`.
  unfoldable pub each : {S : Type 0} → Into C S → Into C (List S)
  each into [] h = ([], h)
  each into (x ∷ l) h = let (y, h₁) = into x h in let (m, h₂) = each into l h₁ in (y ∷ m, h₂)

  -- The same for the array of a slice; the new array is taken after its elements, at another address
  -- than the one that `make` would choose.
  unfoldable pub array_into : {S : Type 0} → (C → List S) → (List S → C) → Into C S → Into C ℕ
  array_into array_of cell_of into a h =
      let (l, h') = each into (array_of (h.cell a)) h in alloc (cell_of l) h'

  abbrev pub items_into : {S : Type 0} → (C → List S) → (List S → C) → Into C S → Into C Pointer
  items_into array_of cell_of into = when_set (array_into array_of cell_of into)

  -- `in.ObjectMeta.DeepCopyInto(&out.ObjectMeta)`, then the spec and the status.
  unfoldable pub object_into :
      {M S T : Type 0} → Into C M → Into C S → Into C T → Into C (ObjectStruct M S T)
  object_into meta_into spec_into status_into x h =
      let (m, h₁) = meta_into x.metadata h in
      let (s, h₂) = spec_into x.spec h₁ in
      let (t, h₃) = status_into x.status h₂ in (record { metadata = m; spec = s; status = t }, h₃)

  -- `in.ListMeta.DeepCopyInto(&out.ListMeta)`, then the items.
  unfoldable pub list_into : {N : Type 0} → Into C N → Into C Pointer → Into C (ListStruct N)
  list_into meta_into items_into x h =
      let (m, h₁) = meta_into x.metadata h in
      let (i, h₂) = items_into x.items h₁ in (record { metadata = m; items = i }, h₂)

module _ {M N O : Type 0} (L : Metav1 M N O) where
  open L use {time_copy, object_meta_into, list_meta_into}

  unfoldable pub container_checkpoint_source_into : Into (Cell M O) ContainerCheckpointSourceStruct
  container_checkpoint_source_into x h =
      let (pod, h₁) = fresh_cell x.pod_name h in
      let (container, h₂) = fresh_cell x.container_name h₁ in
      let (content, h₃) = fresh_cell x.container_checkpoint_content_name h₂ in
      (
        record x {
          pod_name = pod;
          container_name = container;
          container_checkpoint_content_name = content;
        },
        h₃,
      )

  unfoldable pub container_checkpoint_spec_into : Into (Cell M O) ContainerCheckpointSpecStruct
  container_checkpoint_spec_into x h =
      let (source, h') = container_checkpoint_source_into x.source h in
      (record x { source = source }, h')

  unfoldable pub container_checkpoint_status_into : Into (Cell M O) ContainerCheckpointStatusStruct
  container_checkpoint_status_into x h =
      let (bound, h₁) = fresh_cell x.bound_container_checkpoint_content_name h in
      let (time, h₂) = when_set time_copy x.checkpoint_time h₁ in
      (record x { bound_container_checkpoint_content_name = bound; checkpoint_time = time }, h₂)

  unfoldable pub container_checkpoint_into : Into (Cell M O) (ContainerCheckpointStruct M)
  container_checkpoint_into =
      object_into object_meta_into container_checkpoint_spec_into container_checkpoint_status_into

  unfoldable pub container_checkpoint_content_spec_into :
      Into (Cell M O) ContainerCheckpointContentSpecStruct
  container_checkpoint_content_spec_into x h =
      let (ref, h') = fresh_cell x.container_checkpoint_ref h in
      (record x { container_checkpoint_ref = ref }, h')

  unfoldable pub container_checkpoint_content_status_into :
      Into (Cell M O) ContainerCheckpointContentStatusStruct
  container_checkpoint_content_status_into x h =
      let (time, h') = when_set time_copy x.checkpoint_time h in
      (record x { checkpoint_time = time }, h')

  unfoldable pub container_checkpoint_content_into :
      Into (Cell M O) (ContainerCheckpointContentStruct M)
  container_checkpoint_content_into =
      object_into object_meta_into container_checkpoint_content_spec_into
        container_checkpoint_content_status_into

  unfoldable pub pod_checkpoint_source_into : Into (Cell M O) PodCheckpointSourceStruct
  pod_checkpoint_source_into x h =
      let (pod, h₁) = fresh_cell x.pod_name h in
      let (content, h₂) = fresh_cell x.pod_checkpoint_content_name h₁ in
      (record x { pod_name = pod; pod_checkpoint_content_name = content }, h₂)

  unfoldable pub pod_checkpoint_spec_into : Into (Cell M O) PodCheckpointSpecStruct
  pod_checkpoint_spec_into x h =
      let (source, h') = pod_checkpoint_source_into x.source h in (record x { source = source }, h')

  unfoldable pub pod_checkpoint_status_into : Into (Cell M O) PodCheckpointStatusStruct
  pod_checkpoint_status_into x h =
      let (bound, h₁) = fresh_cell x.bound_pod_checkpoint_content_name h in
      let (time, h₂) = when_set time_copy x.checkpoint_time h₁ in
      (record x { bound_pod_checkpoint_content_name = bound; checkpoint_time = time }, h₂)

  unfoldable pub pod_checkpoint_into : Into (Cell M O) (PodCheckpointStruct M)
  pod_checkpoint_into =
      object_into object_meta_into pod_checkpoint_spec_into pod_checkpoint_status_into

  unfoldable pub pod_checkpoint_content_spec_into : Into (Cell M O) PodCheckpointContentSpecStruct
  pod_checkpoint_content_spec_into x h =
      let (ref, h₁) = fresh_cell x.pod_checkpoint_ref h in
      let (containers, h₂) = fresh_cell x.container_checkpoints h₁ in
      (record x { pod_checkpoint_ref = ref; container_checkpoints = containers }, h₂)

  unfoldable pub pod_checkpoint_content_status_into :
      Into (Cell M O) PodCheckpointContentStatusStruct
  pod_checkpoint_content_status_into x h =
      let (time, h') = when_set time_copy x.checkpoint_time h in
      (record x { checkpoint_time = time }, h')

  unfoldable pub pod_checkpoint_content_into : Into (Cell M O) (PodCheckpointContentStruct M)
  pod_checkpoint_content_into =
      object_into object_meta_into pod_checkpoint_content_spec_into
        pod_checkpoint_content_status_into

  -- `out.Spec = in.Spec; out.Status = in.Status`.
  unfoldable pub pod_migration_into : Into (Cell M O) (PodMigrationStruct M)
  pod_migration_into = object_into object_meta_into shallow shallow
