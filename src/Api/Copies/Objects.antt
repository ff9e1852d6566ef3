-- ===== src/Api/Copies/Objects.antt =====
-- The objects of api/v1/zz_generated.deepcopy.go are copied deeply.
use pod_checkpoint_controlle.Prelude.{refl}
use pod_checkpoint_controlle.Api.Containers.{ContainerCheckpoint, ContainerCheckpointContent}
use pod_checkpoint_controlle.Api.Pods.{PodCheckpoint, PodCheckpointContent}
use pod_checkpoint_controlle.Api.Migrations.{PodMigration}
use pod_checkpoint_controlle.Api.Copies.Structs.{
  ContainerCheckpointStruct, ContainerCheckpointContentStruct, PodCheckpointStruct,
  PodCheckpointContentStruct, PodMigrationStruct,
}
use pod_checkpoint_controlle.Api.Copies.Heap.{Cell, Heap}
use pod_checkpoint_controlle.Api.Copies.Copying.{
  Into, Metav1, object_into, container_checkpoint_into, container_checkpoint_content_into,
  pod_checkpoint_into, pod_checkpoint_content_into, pod_migration_into,
}
use pod_checkpoint_controlle.Api.Copies.Independence.{
  Copies, both-Copies, struct-Copies, shown-Copies, shallow-Copies,
}
use pod_checkpoint_controlle.Api.Copies.Views.{
  container_checkpoint_spec_at, ContainerCheckpointSpecIsIn, container_checkpoint_status_at,
  ContainerCheckpointStatusIsIn, container_checkpoint_content_spec_at,
  ContainerCheckpointContentSpecIsIn, container_checkpoint_content_status_at,
  ContainerCheckpointContentStatusIsIn, pod_checkpoint_spec_at, PodCheckpointSpecIsIn,
  pod_checkpoint_status_at, PodCheckpointStatusIsIn, pod_checkpoint_content_spec_at,
  PodCheckpointContentSpecIsIn, pod_checkpoint_content_status_at, PodCheckpointContentStatusIsIn,
}
use pod_checkpoint_controlle.Api.Copies.Parts.{
  CopiesMeta, container_checkpoint_spec-Copies, container_checkpoint_status-Copies,
  container_checkpoint_content_spec-Copies, container_checkpoint_content_status-Copies,
  pod_checkpoint_spec-Copies, pod_checkpoint_status-Copies, pod_checkpoint_content_spec-Copies,
  pod_checkpoint_content_status-Copies,
}

object-Copies :
    {C M S T U V W : Type 0} {f : Into C M} {g : Into C S} {k : Into C T} {view_f : M → Heap C → U}
    {view_g : S → Heap C → V} {view_k : T → Heap C → W} {IsIn_f : M → Heap C → Type 0}
    {IsIn_g : S → Heap C → Type 0} {IsIn_k : T → Heap C → Type 0}
    → Copies f view_f IsIn_f
    → Copies g view_g IsIn_g
    → Copies k view_k IsIn_k
    → Copies {V = U × (V × W)}
        (object_into f g k)
        (λ x h. (view_f x.metadata h, (view_g x.spec h, view_k x.status h)))
        (λ x h. IsIn_f x.metadata h × (IsIn_g x.spec h × IsIn_k x.status h))
unfolding object_into
object-Copies F G K =
    struct-Copies (λ x. (x.metadata, (x.spec, x.status)))
      (λ x y. record { metadata = y.0; spec = y.1.0; status = y.1.1 }) (λ x v. v) (λ x y. refl)
      (λ x y v. refl) (both-Copies F (both-Copies G K))

module _ {M N O : Type 0} {L : Metav1 M N O} (D : CopiesMeta L) where
  abbrev pub container_checkpoint_at :
      ContainerCheckpointStruct M → Heap (Cell M O) → ContainerCheckpoint
  container_checkpoint_at x h = record {
    metadata = D.object_meta_at x.metadata h;
    spec = container_checkpoint_spec_at x.spec h;
    status = container_checkpoint_status_at x.status h;
  }

  abbrev pub ContainerCheckpointIsIn : ContainerCheckpointStruct M → Heap (Cell M O) → Type 0
  ContainerCheckpointIsIn x h =
      D.ObjectMetaIsIn x.metadata h
      × (ContainerCheckpointSpecIsIn x.spec h × ContainerCheckpointStatusIsIn x.status h)

  pub container_checkpoint-Copies :
      Copies (container_checkpoint_into L) container_checkpoint_at ContainerCheckpointIsIn
  unfolding container_checkpoint_into
  container_checkpoint-Copies =
      shown-Copies (λ v. record { metadata = v.0; spec = v.1.0; status = v.1.1 })
        (object-Copies D.object_meta-Copies (container_checkpoint_spec-Copies L D)
          (container_checkpoint_status-Copies L D))

  abbrev pub container_checkpoint_content_at :
      ContainerCheckpointContentStruct M → Heap (Cell M O) → ContainerCheckpointContent
  container_checkpoint_content_at x h = record {
    metadata = D.object_meta_at x.metadata h;
    spec = container_checkpoint_content_spec_at x.spec h;
    status = container_checkpoint_content_status_at x.status h;
  }

  abbrev pub ContainerCheckpointContentIsIn :
      ContainerCheckpointContentStruct M → Heap (Cell M O) → Type 0
  ContainerCheckpointContentIsIn x h =
      D.ObjectMetaIsIn x.metadata h
      × (ContainerCheckpointContentSpecIsIn x.spec h
          × ContainerCheckpointContentStatusIsIn x.status h)

  pub container_checkpoint_content-Copies :
      Copies
        (container_checkpoint_content_into L)
        container_checkpoint_content_at
        ContainerCheckpointContentIsIn
  unfolding container_checkpoint_content_into
  container_checkpoint_content-Copies =
      shown-Copies (λ v. record { metadata = v.0; spec = v.1.0; status = v.1.1 })
        (object-Copies D.object_meta-Copies (container_checkpoint_content_spec-Copies L D)
          (container_checkpoint_content_status-Copies L D))

  abbrev pub pod_checkpoint_at : PodCheckpointStruct M → Heap (Cell M O) → PodCheckpoint
  pod_checkpoint_at x h = record {
    metadata = D.object_meta_at x.metadata h;
    spec = pod_checkpoint_spec_at x.spec h;
    status = pod_checkpoint_status_at x.status h;
  }

  abbrev pub PodCheckpointIsIn : PodCheckpointStruct M → Heap (Cell M O) → Type 0
  PodCheckpointIsIn x h =
      D.ObjectMetaIsIn x.metadata h
      × (PodCheckpointSpecIsIn x.spec h × PodCheckpointStatusIsIn x.status h)

  pub pod_checkpoint-Copies : Copies (pod_checkpoint_into L) pod_checkpoint_at PodCheckpointIsIn
  unfolding pod_checkpoint_into
  pod_checkpoint-Copies =
      shown-Copies (λ v. record { metadata = v.0; spec = v.1.0; status = v.1.1 })
        (object-Copies D.object_meta-Copies (pod_checkpoint_spec-Copies L D)
          (pod_checkpoint_status-Copies L D))

  abbrev pub pod_checkpoint_content_at :
      PodCheckpointContentStruct M → Heap (Cell M O) → PodCheckpointContent
  pod_checkpoint_content_at x h = record {
    metadata = D.object_meta_at x.metadata h;
    spec = pod_checkpoint_content_spec_at x.spec h;
    status = pod_checkpoint_content_status_at x.status h;
  }

  abbrev pub PodCheckpointContentIsIn : PodCheckpointContentStruct M → Heap (Cell M O) → Type 0
  PodCheckpointContentIsIn x h =
      D.ObjectMetaIsIn x.metadata h
      × (PodCheckpointContentSpecIsIn x.spec h × PodCheckpointContentStatusIsIn x.status h)

  pub pod_checkpoint_content-Copies :
      Copies (pod_checkpoint_content_into L) pod_checkpoint_content_at PodCheckpointContentIsIn
  unfolding pod_checkpoint_content_into
  pod_checkpoint_content-Copies =
      shown-Copies (λ v. record { metadata = v.0; spec = v.1.0; status = v.1.1 })
        (object-Copies D.object_meta-Copies (pod_checkpoint_content_spec-Copies L D)
          (pod_checkpoint_content_status-Copies L D))

  abbrev pub pod_migration_at : PodMigrationStruct M → Heap (Cell M O) → PodMigration
  pod_migration_at x h = record {
    metadata = D.object_meta_at x.metadata h;
    spec = x.spec;
    status = x.status;
  }

  abbrev pub PodMigrationIsIn : PodMigrationStruct M → Heap (Cell M O) → Type 0
  PodMigrationIsIn x h = D.ObjectMetaIsIn x.metadata h × (Unit × Unit)

  pub pod_migration-Copies : Copies (pod_migration_into L) pod_migration_at PodMigrationIsIn
  unfolding pod_migration_into
  pod_migration-Copies =
      shown-Copies (λ v. record { metadata = v.0; spec = v.1.0; status = v.1.1 })
        (object-Copies D.object_meta-Copies shallow-Copies shallow-Copies)
