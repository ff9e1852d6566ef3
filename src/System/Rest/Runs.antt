-- ===== src/System/Rest/Runs.antt =====
-- The runs of each reconciler on such an object, and on a missing one.
use pod_checkpoint_controlle.Prelude.{◌≡◌, refl, subst, ◌⊎◌, inl, inr, none, some, arith}
use pod_checkpoint_controlle.Go.Flow.{Reply, finished}
use pod_checkpoint_controlle.Api.Meta.{ObjectKey, key_of}
use pod_checkpoint_controlle.Api.Containers.{ContainerCheckpoint, ContainerCheckpointContent}
use pod_checkpoint_controlle.Api.Pods.{PodCheckpoint}
use pod_checkpoint_controlle.Api.Migrations.{PodMigration, succeeded, failed}
use pod_checkpoint_controlle.Api.Objects.{
  Kind, container_checkpoint, container_checkpoint_content, pod_checkpoint, pod_migration, pod,
}
use pod_checkpoint_controlle.Kube.Client.{Kube}
use pod_checkpoint_controlle.Kube.Table.{find}
use pod_checkpoint_controlle.Kube.Laws.{Serves}
use pod_checkpoint_controlle.Kube.Sequential.{get-found, get-missing}
use pod_checkpoint_controlle.Containers.{cluster_key, reconcile as reconcile_checkpoint}
use pod_checkpoint_controlle.Pods.Reconcile.{reconcile as reconcile_pod_checkpoint}
use pod_checkpoint_controlle.Migrations.{reconcile as reconcile_migration}
use pod_checkpoint_controlle.Migrations.Phases.{reconcile-rests}
use pod_checkpoint_controlle.Sidecar.Host.{Host}
use pod_checkpoint_controlle.Sidecar.Manager.{CheckpointReconciler}
use pod_checkpoint_controlle.Sidecar.Reconciler.{reconcile as reconcile_content}
use pod_checkpoint_controlle.System.Rest.{IsBoundCheckpoint, IsBoundPodCheckpoint, IsReadyContent}

module _ (K : Kube) (L : Serves K) where
  -- A run that asks for nothing and changes nothing.
  abbrev pub IsQuiet : K.State → Reply × K.State → Type 0
  IsQuiet s q = (q.0 ≡ finished) × (L.table q.1 ≡ L.table s)

  pub checkpoint-IsQuiet :
      (key : ObjectKey) (s : K.State) (cc : ContainerCheckpoint)
      → find (L.table s) container_checkpoint key ≡ some cc
      → IsBoundCheckpoint K (L.table s) cc
      → IsQuiet s (reconcile_checkpoint K key s)
  unfolding reconcile_checkpoint
  checkpoint-IsQuiet key s cc stored v =
      let found = get-found K L container_checkpoint key cc s stored in
      let read = L.get-table container_checkpoint key s in
      let u : K.State = (K.get container_checkpoint key s).1 in
      let pod_key : ObjectKey = record { namespace = cc.metadata.namespace; name = v.pod_name } in
      let seen = get-found K L pod pod_key v.source u (rw read v.pod_stored) in
      let pod_read = L.get-table pod pod_key u in
      (
        ground (
          arith, found, seen, v.live, v.guarded, v.dynamic, v.pod_named, v.container_named,
          v.contained, v.bound,
        ),
        ground (
          arith, found, seen, v.live, v.guarded, v.dynamic, v.pod_named, v.container_named,
          v.contained, v.bound, read, pod_read,
        ),
      )

  -- The error of a missing object is dropped.
  ignored : (k : Kind) (key : ObjectKey) → K.ignore_not_found (L.missing k key) ≡ none
  ignored k key = L.ignore_not_found-eq (L.missing k key) (rw (L.missing_reason k key) refl)

  pub checkpoint_missing :
      (key : ObjectKey) (s : K.State)
      → find (L.table s) container_checkpoint key ≡ none
      → IsQuiet s (reconcile_checkpoint K key s)
  unfolding reconcile_checkpoint
  checkpoint_missing key s absent =
      let lost = get-missing K L container_checkpoint key s absent in
      let drops = ignored container_checkpoint key in
      let read = L.get-table container_checkpoint key s in
      (ground (arith, lost, drops), ground (arith, lost, drops, read))

  pub pod_checkpoint-IsQuiet :
      (key : ObjectKey) (s : K.State) (pc : PodCheckpoint)
      → find (L.table s) pod_checkpoint key ≡ some pc
      → IsBoundPodCheckpoint K (L.table s) pc
      → IsQuiet s (reconcile_pod_checkpoint K key s)
  unfolding reconcile_pod_checkpoint
  pod_checkpoint-IsQuiet key s pc stored v =
      let found = get-found K L pod_checkpoint key pc s stored in
      let read = L.get-table pod_checkpoint key s in
      let u : K.State = (K.get pod_checkpoint key s).1 in
      let pod_key : ObjectKey = record { namespace = pc.metadata.namespace; name = v.pod_name } in
      let seen = get-found K L pod pod_key v.source u (rw read v.pod_stored) in
      let pod_read = L.get-table pod pod_key u in
      (
        ground (arith, found, seen, v.live, v.guarded, v.dynamic, v.pod_named, v.bound),
        ground (
          arith, found, seen, v.live, v.guarded, v.dynamic, v.pod_named, v.bound, read, pod_read,
        ),
      )

  pub pod_checkpoint_missing :
      (key : ObjectKey) (s : K.State)
      → find (L.table s) pod_checkpoint key ≡ none
      → IsQuiet s (reconcile_pod_checkpoint K key s)
  unfolding reconcile_pod_checkpoint
  pod_checkpoint_missing key s absent =
      let lost = get-missing K L pod_checkpoint key s absent in
      let drops = ignored pod_checkpoint key in
      let read = L.get-table pod_checkpoint key s in
      (ground (arith, lost, drops), ground (arith, lost, drops, read))

  pub migration_missing :
      (key : ObjectKey) (s : K.State)
      → find (L.table s) pod_migration key ≡ none
      → IsQuiet s (reconcile_migration K key s)
  unfolding reconcile_migration
  migration_missing key s absent =
      let lost = get-missing K L pod_migration key s absent in
      let drops = ignored pod_migration key in
      let read = L.get-table pod_migration key s in
      (ground (arith, lost, drops), ground (arith, lost, drops, read))

  pub migration-IsQuiet :
      (key : ObjectKey) (s : K.State) (pm : PodMigration)
      → find (L.table s) pod_migration key ≡ some pm
      → key_of pm.metadata ≡ key
      → (pm.status.phase ≡ succeeded) ⊎ (pm.status.phase ≡ failed)
      → IsQuiet s (reconcile_migration K key s)
  migration-IsQuiet key s pm stored placed ended =
      subst (λ k. IsQuiet s (reconcile_migration K k s)) placed
        (reconcile-rests K L pm s (rw placed stored)
          (elim ended [ inl e ↦ inl e | inr e ↦ inr (inl e) ]))

  module _ (H : Host K.State) (r : CheckpointReconciler) where
    pub content-IsQuiet :
        (key : ObjectKey) (s : K.State) (c : ContainerCheckpointContent)
        → find (L.table s) container_checkpoint_content (cluster_key key.name) ≡ some c
        → IsReadyContent K (L.table s) c
        → IsQuiet s (reconcile_content K H r key s)
    unfolding reconcile_content
    content-IsQuiet key s c stored v =
        let found = get-found K L container_checkpoint_content (cluster_key key.name) c s stored in
        let read = L.get-table container_checkpoint_content (cluster_key key.name) s in
        let u : K.State = (K.get container_checkpoint_content (cluster_key key.name) s).1 in
        let parent_key : ObjectKey = record { namespace = v.ref.namespace; name = v.ref.name } in
        let seen =
          get-found K L container_checkpoint parent_key v.parent u (rw read v.parent_stored) in
        let parent_read = L.get-table container_checkpoint parent_key u in
        (
          ground (
            arith, found, seen, v.live, v.guarded, v.referred, v.pod_named, v.container_named,
            v.ready,
          ),
          ground (
            arith, found, seen, v.live, v.guarded, v.referred, v.pod_named, v.container_named,
            v.ready, read, parent_read,
          ),
        )

    pub content_missing :
        (key : ObjectKey) (s : K.State)
        → find (L.table s) container_checkpoint_content (cluster_key key.name) ≡ none
        → IsQuiet s (reconcile_content K H r key s)
    unfolding reconcile_content
    content_missing key s absent =
        let lost = get-missing K L container_checkpoint_content (cluster_key key.name) s absent in
        let drops = ignored container_checkpoint_content (cluster_key key.name) in
        let read = L.get-table container_checkpoint_content (cluster_key key.name) s in
        (ground (arith, lost, drops), ground (arith, lost, drops, read))
