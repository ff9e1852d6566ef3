-- ===== src/Sidecar/Run.antt =====
-- A run of `CheckpointReconciler.Reconcile` that makes a checkpoint, from the content as it is read.
use pod_checkpoint_controlle.Prelude.{
  ℕ, String, ◌≡◌, refl, ◌∙◌, true, false, some, List, arith, inl,
}
use pod_checkpoint_controlle.Go.Errors.{ok}
use pod_checkpoint_controlle.Go.Flow.{finished, answer}
use pod_checkpoint_controlle.Api.Meta.{key_of, Pod}
use pod_checkpoint_controlle.Api.Containers.{ContainerCheckpoint, ContainerCheckpointContent}
use pod_checkpoint_controlle.Api.Objects.{container_checkpoint_content}
use pod_checkpoint_controlle.Kube.Client.{Kube}
use pod_checkpoint_controlle.Kube.Table.{find, store, stamped, find-store, store-store}
use pod_checkpoint_controlle.Kube.Laws.{Serves, IsAllowed}
use pod_checkpoint_controlle.Kube.Sequential.{get-found}
use pod_checkpoint_controlle.Containers.{cluster_key}
use pod_checkpoint_controlle.Sidecar.Host.{Host}
use pod_checkpoint_controlle.Sidecar.Kubelet.Polls.{BacksOff}
use pod_checkpoint_controlle.Sidecar.Manager.{CheckpointReconciler}
use pod_checkpoint_controlle.Sidecar.Reconciler.{
  sidecar_finalizer, target_of_location, with_finalizers, reconcile,
}
use pod_checkpoint_controlle.Sidecar.Steps.{IsWorking, IsDue, rest_of_run, rest-Marked}

module _ (K : Kube) (L : Serves K) (H : Host K.State) (B : BacksOff H) (r : CheckpointReconciler)
    (c : ContainerCheckpointContent) (f : String) (fs : List String)
    (W : IsWorking K L H B (target_of_location c.spec.storage_location) f fs)
    (cc : ContainerCheckpoint) (p : Pod) (s : K.State) (v : IsDue (L.table s) r c cc p) where
  abbrev loaded : K.State
  loaded = (K.get container_checkpoint_content (cluster_key c.metadata.name) s).1

  found : (K.get container_checkpoint_content (cluster_key c.metadata.name) s).0 ≡ ok c
  found =
      get-found K L container_checkpoint_content (cluster_key c.metadata.name) c s
        (rw (← v.placed) v.stored)

  same : L.table loaded ≡ L.table s
  same = L.get-table container_checkpoint_content (cluster_key c.metadata.name) s

  -- Of a content that is stored, not being deleted, has this finalizer and a storage location, is
  -- not ready and not begun, and whose parent is stored and names a container of a stored pod on
  -- this node, with a server that serves the run alone, a kubelet that answers with files, and a
  -- sidecar of the target node that takes them: the run ends with the content marked as ready, with
  -- no error and a time, and no other object is changed.
  pub reconcile-checkpoints :
      K.contains_finalizer c.metadata.finalizers sidecar_finalizer ≡ true
      → (t w : ℕ) × ((reconcile K H r (cluster_key c.metadata.name) s).0 ≡ finished)
        × (L.table (reconcile K H r (cluster_key c.metadata.name) s).1
            ≡ store container_checkpoint_content
                (key_of c.metadata)
                (some (
                  stamped container_checkpoint_content w (record c {
                    status = record {
                      ready_to_restore = true;
                      error_message = "";
                      checkpoint_time = some t;
                    };
                  })))
                (L.table s))
  unfolding reconcile
  reconcile-checkpoints guarded =
      let due : IsDue (L.table loaded) r c cc p = rw same v in
      let run : reconcile K H r (cluster_key c.metadata.name) s
          ≡ answer (rest_of_run K H r c loaded) =
        ground (arith, found, v.live, guarded) in
      let marked = rest-Marked K L H r c cc p loaded due B f fs W in
      (marked.0, marked.1, rw run marked.2, rw run (marked.3 ∙ rw same refl))

  -- The content with this finalizer.
  abbrev guarded_content : ContainerCheckpointContent
  guarded_content = with_finalizers (K.add_finalizer c.metadata.finalizers sidecar_finalizer) c

  abbrev patched : ContainerCheckpointContent
  patched = stamped container_checkpoint_content (L.fresh loaded) guarded_content

  abbrev after_patch : K.State
  after_patch = (K.patch container_checkpoint_content c guarded_content loaded).1

  allowed : IsAllowed K container_checkpoint_content c guarded_content
  allowed = inl v.live

  stored_loaded : find (L.table loaded) container_checkpoint_content (key_of c.metadata) ≡ some c
  stored_loaded = rw same v.stored

  table-after_patch :
      L.table after_patch
      ≡ store container_checkpoint_content (key_of c.metadata) (some patched) (L.table s)
  table-after_patch =
      L.patch-table container_checkpoint_content c guarded_content loaded stored_loaded allowed
      ∙ rw (v.live, same) refl

  due_after_patch : IsDue (L.table after_patch) r patched cc p
  due_after_patch = record {
    placed = v.placed;
    stored =
        rw table-after_patch
          (find-store container_checkpoint_content (key_of c.metadata) (some patched) (L.table s));
    live = v.live;
    ref = v.ref;
    referred = v.referred;
    parent = rw table-after_patch v.parent;
    pod_name = v.pod_name;
    pod_named = v.pod_named;
    container_name = v.container_name;
    container_named = v.container_named;
    unready = v.unready;
    unbegun = v.unbegun;
    pod_stored = rw table-after_patch v.pod_stored;
    here = v.here;
    located = v.located;
  }

  -- The same of a content that does not have this finalizer yet: the run adds it and goes on.
  pub reconcile-guards :
      K.contains_finalizer c.metadata.finalizers sidecar_finalizer ≡ false
      → (t w : ℕ) × ((reconcile K H r (cluster_key c.metadata.name) s).0 ≡ finished)
        × (L.table (reconcile K H r (cluster_key c.metadata.name) s).1
            ≡ store container_checkpoint_content
                (key_of c.metadata)
                (some (
                  stamped container_checkpoint_content w (record guarded_content {
                    status = record {
                      ready_to_restore = true;
                      error_message = "";
                      checkpoint_time = some t;
                    };
                  })))
                (L.table s))
  unfolding reconcile
  reconcile-guards bare =
      let wrote =
        L.patch-result container_checkpoint_content c guarded_content loaded stored_loaded
          allowed in
      let run : reconcile K H r (cluster_key c.metadata.name) s
          ≡ answer (rest_of_run K H r patched after_patch) =
        ground (arith, found, v.live, bare, wrote) in
      let marked = rest-Marked K L H r patched cc p after_patch due_after_patch B f fs W in
      (
        marked.0,
        marked.1,
        rw run marked.2,
        rw run (
            marked.3
            ∙ rw table-after_patch (
                store-store container_checkpoint_content (key_of c.metadata) (some patched) _
                  (L.table s))),
      )
