-- ===== src/Sidecar/Attempts.antt =====
-- What a run of `CheckpointReconciler.Reconcile` does while the last attempt is recent.
use pod_checkpoint_controlle.Prelude.{
  ℕ, ◌+◌, ◌-◌, ltb, String, ◌≡◌, refl, true, false, none, some, arith,
}
use pod_checkpoint_controlle.Go.Flow.{requeue_in}
use pod_checkpoint_controlle.Api.Meta.{ObjectKey, key_of}
use pod_checkpoint_controlle.Api.Containers.{
  ContainerCheckpoint, ContainerCheckpointContent, ContainerCheckpointRef,
}
use pod_checkpoint_controlle.Api.Objects.{container_checkpoint, container_checkpoint_content}
use pod_checkpoint_controlle.Kube.Client.{Kube}
use pod_checkpoint_controlle.Kube.Table.{find}
use pod_checkpoint_controlle.Kube.Laws.{Serves}
use pod_checkpoint_controlle.Kube.Sequential.{get-found}
use pod_checkpoint_controlle.Containers.{cluster_key}
use pod_checkpoint_controlle.Sidecar.Host.{Host}
use pod_checkpoint_controlle.Sidecar.Manager.{CheckpointReconciler}
use pod_checkpoint_controlle.Sidecar.Reconciler.{
  sidecar_finalizer, fetch_parent, source_names, checkpoint, reconcile,
}

module _ (K : Kube) (L : Serves K) (c : ContainerCheckpointContent) (cc : ContainerCheckpoint)
    (s : K.State) where
  -- The state after the content and its parent are read.
  abbrev after_reads : ContainerCheckpointRef → K.State
  after_reads ref =
      (K.get container_checkpoint (record { namespace = ref.namespace; name = ref.name })
        (K.get container_checkpoint_content (cluster_key c.metadata.name) s).1).1

  -- Of a content that is stored, not being deleted, has this finalizer, is not ready and was begun,
  -- and whose parent is stored and names a pod and a container, with a server that serves the run
  -- alone: if the clock, once both are read, is less than five minutes (300 seconds of 10^9
  -- nanoseconds) after the begin, then whatever error the content has, and whatever the node of the
  -- sidecar is, the run leaves every object as it was, and asks to come back when those five minutes
  -- have passed.
  pub reconcile-waits :
      (H : Host K.State) (r : CheckpointReconciler)
      → key_of c.metadata ≡ cluster_key c.metadata.name
      → find (L.table s) container_checkpoint_content (key_of c.metadata) ≡ some c
      → c.metadata.deletion_timestamp ≡ none
      → K.contains_finalizer c.metadata.finalizers sidecar_finalizer ≡ true
      → {ref : ContainerCheckpointRef} → c.spec.container_checkpoint_ref ≡ some ref
      → find
          (L.table s)
          container_checkpoint
          (record { namespace = ref.namespace; name = ref.name })
        ≡ some cc
      → {pod_name container_name : String} → cc.spec.source.pod_name ≡ some pod_name
      → cc.spec.source.container_name ≡ some container_name
      → c.status.ready_to_restore ≡ false
      → {begin now : ℕ} → c.status.checkpoint_time ≡ some begin
      → (K.now (after_reads ref)).0 ≡ now
      → ltb now (begin + 300000000000) ≡ true
      → ((reconcile K H r (cluster_key c.metadata.name) s).0
          ≡ requeue_in (begin + 300000000000 - now))
        × (L.table (reconcile K H r (cluster_key c.metadata.name) s).1 ≡ L.table s)
  unfolding reconcile fetch_parent source_names checkpoint
  reconcile-waits H r placed stored live guarded {ref = ref} referred parent pod_named
        container_named unready {begin = begin} {now = now} begun clock early =
      let key = cluster_key c.metadata.name in
      let loaded : K.State = (K.get container_checkpoint_content key s).1 in
      let found = get-found K L container_checkpoint_content key c s (rw (← placed) stored) in
      let parent_key : ObjectKey = record { namespace = ref.namespace; name = ref.name } in
      let seen = get-found K L container_checkpoint parent_key cc loaded (rw L.get-table parent) in
      let timed : K.State = after_reads ref in
      let same : L.table (K.now timed).1 ≡ L.table s =
        rw (L.now-table, L.get-table, L.get-table) refl in
      let run : reconcile K H r key s ≡ (requeue_in (begin + 300000000000 - now), (K.now timed).1) =
        ground (
          arith, found, live, guarded, referred, seen, pod_named, container_named, unready, begun,
          clock, early,
        ) in
      (rw run refl, rw run same)
