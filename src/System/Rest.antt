-- ===== src/System/Rest.antt =====
-- When all is done: objects that need nothing more, and the runs of all reconcilers on them.
pub mod Runs
pub mod Turns
use pod_checkpoint_controlle.Prelude.{
  String, ◌≡◌, refl, sym, subst, ◌∙◌, ◌⊎◌, inl, inr, true, Option, none, some, List, [], ◌∷◌, arith,
  Option-cases,
}
use pod_checkpoint_controlle.Prelude.All.{All}
use pod_checkpoint_controlle.Go.Flow.{Reply, finished}
use pod_checkpoint_controlle.Api.Meta.{ObjectKey, key_of, Pod}
use pod_checkpoint_controlle.Api.Containers.{
  ContainerCheckpoint, ContainerCheckpointContent, ContainerCheckpointRef,
}
use pod_checkpoint_controlle.Api.Pods.{PodCheckpoint}
use pod_checkpoint_controlle.Api.Migrations.{PodMigration, succeeded, failed}
use pod_checkpoint_controlle.Api.Objects.{
  Kind, container_checkpoint, container_checkpoint_content, pod_checkpoint, pod_migration, pod,
}
use pod_checkpoint_controlle.Kube.Client.{Kube}
use pod_checkpoint_controlle.Kube.Table.{Table, find}
use pod_checkpoint_controlle.Kube.Laws.{Serves}
use pod_checkpoint_controlle.Kube.Sequential.{get-found, get-missing}
use pod_checkpoint_controlle.Containers.{
  cc_finalizer, cluster_key, non_empty, has_container, reconcile as reconcile_checkpoint,
}
use pod_checkpoint_controlle.Pods.{pc_finalizer}
use pod_checkpoint_controlle.Pods.Reconcile.{reconcile as reconcile_pod_checkpoint}
use pod_checkpoint_controlle.Migrations.{reconcile as reconcile_migration}
use pod_checkpoint_controlle.Migrations.Phases.{reconcile-rests}
use pod_checkpoint_controlle.Sidecar.Host.{Host}
use pod_checkpoint_controlle.Sidecar.Manager.{CheckpointReconciler}
use pod_checkpoint_controlle.Sidecar.Reconciler.{sidecar_finalizer, reconcile as reconcile_content}

-- A ContainerCheckpoint that is bound, and whose pod and container are there.
pub record IsBoundCheckpoint (K : Kube) (t : Table) (cc : ContainerCheckpoint) : Type 0 where
  pub live : cc.metadata.deletion_timestamp ≡ none
  pub guarded : K.contains_finalizer cc.metadata.finalizers cc_finalizer ≡ true
  pub dynamic : non_empty cc.spec.source.container_checkpoint_content_name ≡ none
  pub pod_name : String
  pub pod_named : cc.spec.source.pod_name ≡ some pod_name
  pub container_name : String
  pub container_named : cc.spec.source.container_name ≡ some container_name
  pub source : Pod
  pub pod_stored :
      find t pod (record { namespace = cc.metadata.namespace; name = pod_name }) ≡ some source
  pub contained : has_container container_name source.spec.containers ≡ true
  pub content_name : String
  pub bound : cc.status.bound_container_checkpoint_content_name ≡ some content_name

-- A PodCheckpoint that is bound, and whose pod is there.
pub record IsBoundPodCheckpoint (K : Kube) (t : Table) (pc : PodCheckpoint) : Type 0 where
  pub live : pc.metadata.deletion_timestamp ≡ none
  pub guarded : K.contains_finalizer pc.metadata.finalizers pc_finalizer ≡ true
  pub dynamic : non_empty pc.spec.source.pod_checkpoint_content_name ≡ none
  pub pod_name : String
  pub pod_named : non_empty pc.spec.source.pod_name ≡ some pod_name
  pub source : Pod
  pub pod_stored :
      find t pod (record { namespace = pc.metadata.namespace; name = pod_name }) ≡ some source
  pub content_name : String
  pub bound : pc.status.bound_pod_checkpoint_content_name ≡ some content_name

-- A ContainerCheckpointContent that is ready, and whose parent is there.
pub record IsReadyContent (K : Kube) (t : Table) (c : ContainerCheckpointContent) : Type 0 where
  pub live : c.metadata.deletion_timestamp ≡ none
  pub guarded : K.contains_finalizer c.metadata.finalizers sidecar_finalizer ≡ true
  pub ref : ContainerCheckpointRef
  pub referred : c.spec.container_checkpoint_ref ≡ some ref
  pub parent : ContainerCheckpoint
  pub parent_stored :
      find t container_checkpoint (record { namespace = ref.namespace; name = ref.name })
      ≡ some parent
  pub pod_name : String
  pub pod_named : parent.spec.source.pod_name ≡ some pod_name
  pub container_name : String
  pub container_named : parent.spec.source.container_name ≡ some container_name
  pub ready : c.status.ready_to_restore ≡ true

-- Every object that is stored is one of these, or a migration that has ended.
pub record IsAtRest (K : Kube) (t : Table) : Type 0 where
  pub checkpoints :
      (key : ObjectKey) (cc : ContainerCheckpoint)
      → find t container_checkpoint key ≡ some cc
      → IsBoundCheckpoint K t cc
  pub pod_checkpoints :
      (key : ObjectKey) (pc : PodCheckpoint)
      → find t pod_checkpoint key ≡ some pc
      → IsBoundPodCheckpoint K t pc
  pub contents :
      (key : ObjectKey) (c : ContainerCheckpointContent)
      → find t container_checkpoint_content key ≡ some c
      → IsReadyContent K t c
  pub migrations :
      (key : ObjectKey) (pm : PodMigration)
      → find t pod_migration key ≡ some pm
      → (key_of pm.metadata ≡ key) × ((pm.status.phase ≡ succeeded) ⊎ (pm.status.phase ≡ failed))
