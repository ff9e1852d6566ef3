-- ===== src/Api/Copies/Parts.antt =====
-- The specs and statuses of api/v1/zz_generated.deepcopy.go are copied deeply.
use pod_checkpoint_controlle.Prelude.{refl}
use pod_checkpoint_controlle.Api.Meta.{ObjectMeta}
use pod_checkpoint_controlle.Api.Copies.Heap.{
  Cell, Heap, text_of, time_of, container_checkpoint_ref_of, pod_checkpoint_ref_of, references_of,
}
use pod_checkpoint_controlle.Api.Copies.Copying.{
  Metav1, when_set, new_cell, container_checkpoint_source_into, container_checkpoint_spec_into,
  container_checkpoint_status_into, container_checkpoint_content_spec_into,
  container_checkpoint_content_status_into, pod_checkpoint_source_into, pod_checkpoint_spec_into,
  pod_checkpoint_status_into, pod_checkpoint_content_spec_into, pod_checkpoint_content_status_into,
}
use pod_checkpoint_controlle.Api.Copies.Independence.{
  Copies, seen, IsSeen, cell_as, InUse, new_cell-Copies, when_set-Copies, both-Copies,
  struct-Copies,
}
use pod_checkpoint_controlle.Api.Copies.Views.{
  elements, container_checkpoint_source_at, ContainerCheckpointSourceIsIn,
  container_checkpoint_spec_at, ContainerCheckpointSpecIsIn, container_checkpoint_status_at,
  ContainerCheckpointStatusIsIn, container_checkpoint_content_spec_at,
  ContainerCheckpointContentSpecIsIn, container_checkpoint_content_status_at,
  ContainerCheckpointContentStatusIsIn, pod_checkpoint_source_at, PodCheckpointSourceIsIn,
  pod_checkpoint_spec_at, PodCheckpointSpecIsIn, pod_checkpoint_status_at, PodCheckpointStatusIsIn,
  pod_checkpoint_content_spec_at, PodCheckpointContentSpecIsIn, pod_checkpoint_content_status_at,
  PodCheckpointContentStatusIsIn,
}

-- apimachinery documents its copies as deep ones.
pub record CopiesMeta {M N O : Type 0} (L : Metav1 M N O) : Type 1 where
  pub time-Copies : Copies L.time_copy (cell_as time_of) InUse
  pub object_meta_at : M → Heap (Cell M O) → ObjectMeta
  pub ObjectMetaIsIn : M → Heap (Cell M O) → Type 0
  pub object_meta-Copies : Copies L.object_meta_into object_meta_at ObjectMetaIsIn
  pub ListMeta : Type 0
  pub list_meta_at : N → Heap (Cell M O) → ListMeta
  pub ListMetaIsIn : N → Heap (Cell M O) → Type 0
  pub list_meta-Copies : Copies L.list_meta_into list_meta_at ListMetaIsIn

module _ {M O : Type 0} where
  text-Copies : Copies (when_set (new_cell {C = Cell M O})) (seen (cell_as text_of)) (IsSeen InUse)
  text-Copies = when_set-Copies (new_cell-Copies text_of)

module _ {M N O : Type 0} (L : Metav1 M N O) (D : CopiesMeta L) where
  pub container_checkpoint_source-Copies :
      Copies
        (container_checkpoint_source_into L)
        container_checkpoint_source_at
        ContainerCheckpointSourceIsIn
  unfolding container_checkpoint_source_into
  container_checkpoint_source-Copies =
      struct-Copies (λ x. (x.pod_name, (x.container_name, x.container_checkpoint_content_name)))
        (λ x y. record x {
          pod_name = y.0;
          container_name = y.1.0;
          container_checkpoint_content_name = y.1.1;
        })
        (λ x v. record {
          pod_name = v.0;
          container_name = v.1.0;
          container_checkpoint_content_name = v.1.1;
        })
        (λ x y. refl) (λ x y v. refl)
        (both-Copies text-Copies (both-Copies text-Copies text-Copies))

  pub container_checkpoint_spec-Copies :
      Copies
        (container_checkpoint_spec_into L)
        container_checkpoint_spec_at
        ContainerCheckpointSpecIsIn
  unfolding container_checkpoint_spec_into
  container_checkpoint_spec-Copies =
      struct-Copies (λ x. x.source) (λ x y. record x { source = y })
        (λ x v. record { source = v; deletion_policy = x.deletion_policy }) (λ x y. refl)
        (λ x y v. refl) container_checkpoint_source-Copies

  pub container_checkpoint_status-Copies :
      Copies
        (container_checkpoint_status_into L)
        container_checkpoint_status_at
        ContainerCheckpointStatusIsIn
  unfolding container_checkpoint_status_into
  container_checkpoint_status-Copies =
      struct-Copies (λ x. (x.bound_container_checkpoint_content_name, x.checkpoint_time))
        (λ x y. record x { bound_container_checkpoint_content_name = y.0; checkpoint_time = y.1 })
        (λ x v. record {
          bound_container_checkpoint_content_name = v.0;
          ready_to_restore = x.ready_to_restore;
          error_message = x.error_message;
          checkpoint_time = v.1;
        })
        (λ x y. refl) (λ x y v. refl) (both-Copies text-Copies (when_set-Copies D.time-Copies))

  pub container_checkpoint_content_spec-Copies :
      Copies
        (container_checkpoint_content_spec_into L)
        container_checkpoint_content_spec_at
        ContainerCheckpointContentSpecIsIn
  unfolding container_checkpoint_content_spec_into
  container_checkpoint_content_spec-Copies =
      struct-Copies (λ x. x.container_checkpoint_ref)
        (λ x y. record x { container_checkpoint_ref = y })
        (λ x v. record {
          container_checkpoint_ref = v;
          deletion_policy = x.deletion_policy;
          storage_location = x.storage_location;
        })
        (λ x y. refl) (λ x y v. refl)
        (when_set-Copies (new_cell-Copies container_checkpoint_ref_of))

  pub container_checkpoint_content_status-Copies :
      Copies
        (container_checkpoint_content_status_into L)
        container_checkpoint_content_status_at
        ContainerCheckpointContentStatusIsIn
  unfolding container_checkpoint_content_status_into
  container_checkpoint_content_status-Copies =
      struct-Copies (λ x. x.checkpoint_time) (λ x y. record x { checkpoint_time = y })
        (λ x v. record {
          ready_to_restore = x.ready_to_restore;
          error_message = x.error_message;
          checkpoint_time = v;
        })
        (λ x y. refl) (λ x y v. refl) (when_set-Copies D.time-Copies)

  pub pod_checkpoint_source-Copies :
      Copies (pod_checkpoint_source_into L) pod_checkpoint_source_at PodCheckpointSourceIsIn
  unfolding pod_checkpoint_source_into
  pod_checkpoint_source-Copies =
      struct-Copies (λ x. (x.pod_name, x.pod_checkpoint_content_name))
        (λ x y. record x { pod_name = y.0; pod_checkpoint_content_name = y.1 })
        (λ x v. record { pod_name = v.0; pod_checkpoint_content_name = v.1 }) (λ x y. refl)
        (λ x y v. refl) (both-Copies text-Copies text-Copies)

  pub pod_checkpoint_spec-Copies :
      Copies (pod_checkpoint_spec_into L) pod_checkpoint_spec_at PodCheckpointSpecIsIn
  unfolding pod_checkpoint_spec_into
  pod_checkpoint_spec-Copies =
      struct-Copies (λ x. x.source) (λ x y. record x { source = y })
        (λ x v. record { source = v; deletion_policy = x.deletion_policy }) (λ x y. refl)
        (λ x y v. refl) pod_checkpoint_source-Copies

  pub pod_checkpoint_status-Copies :
      Copies (pod_checkpoint_status_into L) pod_checkpoint_status_at PodCheckpointStatusIsIn
  unfolding pod_checkpoint_status_into
  pod_checkpoint_status-Copies =
      struct-Copies (λ x. (x.bound_pod_checkpoint_content_name, x.checkpoint_time))
        (λ x y. record x { bound_pod_checkpoint_content_name = y.0; checkpoint_time = y.1 })
        (λ x v. record {
          bound_pod_checkpoint_content_name = v.0;
          checkpoint_time = v.1;
          ready_to_restore = x.ready_to_restore;
          error_message = x.error_message;
        })
        (λ x y. refl) (λ x y v. refl) (both-Copies text-Copies (when_set-Copies D.time-Copies))

  pub pod_checkpoint_content_spec-Copies :
      Copies
        (pod_checkpoint_content_spec_into L)
        pod_checkpoint_content_spec_at
        PodCheckpointContentSpecIsIn
  unfolding pod_checkpoint_content_spec_into
  pod_checkpoint_content_spec-Copies =
      struct-Copies (λ x. (x.pod_checkpoint_ref, x.container_checkpoints))
        (λ x y. record x { pod_checkpoint_ref = y.0; container_checkpoints = y.1 })
        (λ x v. record {
          pod_checkpoint_ref = v.0;
          deletion_policy = x.deletion_policy;
          pod_uid = x.pod_uid;
          pod_namespace = x.pod_namespace;
          pod_name = x.pod_name;
          storage_location = x.storage_location;
          container_checkpoints = elements v.1;
        })
        (λ x y. refl) (λ x y v. refl)
        (both-Copies (when_set-Copies (new_cell-Copies pod_checkpoint_ref_of))
          (when_set-Copies (new_cell-Copies references_of)))

  pub pod_checkpoint_content_status-Copies :
      Copies
        (pod_checkpoint_content_status_into L)
        pod_checkpoint_content_status_at
        PodCheckpointContentStatusIsIn
  unfolding pod_checkpoint_content_status_into
  pod_checkpoint_content_status-Copies =
      struct-Copies (λ x. x.checkpoint_time) (λ x y. record x { checkpoint_time = y })
        (λ x v. record {
          checkpoint_time = v;
          ready_to_restore = x.ready_to_restore;
          error_message = x.error_message;
        })
        (λ x y. refl) (λ x y v. refl) (when_set-Copies D.time-Copies)
