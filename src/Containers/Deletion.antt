-- ===== src/Containers/Deletion.antt =====
-- What `ContainerCheckpointReconciler.Reconcile` does for a checkpoint that is being deleted.
use pod_checkpoint_controlle.Prelude.{ℕ, String, ◌==◌, ◌≡◌, refl, true, false, some, arith, inr}
use pod_checkpoint_controlle.Go.Errors.{ok}
use pod_checkpoint_controlle.Go.Flow.{finished}
use pod_checkpoint_controlle.Api.Meta.{key_of}
use pod_checkpoint_controlle.Api.Containers.{ContainerCheckpoint, ContainerCheckpointContent}
use pod_checkpoint_controlle.Api.Objects.{container_checkpoint, container_checkpoint_content}
use pod_checkpoint_controlle.Kube.Client.{Kube}
use pod_checkpoint_controlle.Kube.Table.{find, store, settle}
use pod_checkpoint_controlle.Kube.Laws.{Serves, doomed}
use pod_checkpoint_controlle.Kube.Sequential.{get-found, update_loop}
use pod_checkpoint_controlle.Containers.{
  cc_finalizer, cluster_key, non_empty, with_finalizers, reconcile,
}

-- The checkpoint as the loop that drops the finalizer leaves it.
abbrev pub released : Kube → ContainerCheckpoint → ContainerCheckpoint
released K cc = with_finalizers (K.remove_finalizer cc.metadata.finalizers cc_finalizer) cc

module _ (K : Kube) (L : Serves K) (cc : ContainerCheckpoint) (s : K.State)
    (stored : find (L.table s) container_checkpoint (key_of cc.metadata) ≡ some cc) {at : ℕ}
    (deleting : cc.metadata.deletion_timestamp ≡ some at)
    (guarded : K.contains_finalizer cc.metadata.finalizers cc_finalizer ≡ true) where
  abbrev after_get : K.State
  after_get = (K.get container_checkpoint (key_of cc.metadata) s).1

  found : (K.get container_checkpoint (key_of cc.metadata) s).0 ≡ ok cc
  found = get-found K L container_checkpoint _ cc s stored

  -- Of a stored checkpoint that is being deleted and has this finalizer, with a server that serves
  -- the run alone: with a policy other than "Delete" the finalizer is dropped and no content is
  -- touched.
  pub reconcile-retains :
      (cc.spec.deletion_policy == "Delete") ≡ false
      → (w : ℕ) × ((reconcile K (key_of cc.metadata) s).0 ≡ finished)
        × (L.table (reconcile K (key_of cc.metadata) s).1
            ≡ store container_checkpoint
                (key_of cc.metadata)
                (settle container_checkpoint w (released K cc))
                (L.table s))
  unfolding reconcile
  reconcile-retains retain =
      let loop =
        update_loop K L container_checkpoint cc (released K) after_get (rw L.get-table stored) refl
          refl
          (inr (L.contains_finalizer-of_remove_finalizer cc.metadata.finalizers cc_finalizer)) in
      (
        loop.0,
        ground (arith, found, deleting, guarded, loop.1),
        ground (
          arith,
          found,
          deleting,
          guarded,
          loop.2,
          L.get-table container_checkpoint (key_of cc.metadata) s,
        ),
      )

  -- Of a stored checkpoint that is being deleted and has this finalizer, with a server that serves
  -- the run alone: with the policy "Delete" the bound content, which is stored, is deleted, and
  -- then the finalizer is dropped.
  pub reconcile-deletes :
      (cc.spec.deletion_policy == "Delete") ≡ true
      → {name : String} → non_empty cc.status.bound_container_checkpoint_content_name ≡ some name
      → {content : ContainerCheckpointContent}
      → find (L.table s) container_checkpoint_content (cluster_key name) ≡ some content
      → (v w time : ℕ) × ((reconcile K (key_of cc.metadata) s).0 ≡ finished)
        × (L.table (reconcile K (key_of cc.metadata) s).1
            ≡ store container_checkpoint
                (key_of cc.metadata)
                (settle container_checkpoint w (released K cc))
                (store container_checkpoint_content
                  (cluster_key name)
                  (settle container_checkpoint_content v
                    (doomed container_checkpoint_content time content))
                  (L.table s)))
  unfolding reconcile
  reconcile-deletes policy {name} bound {content} there =
      let read = L.get-table container_checkpoint (key_of cc.metadata) s in
      let there' : find (L.table after_get) container_checkpoint_content (cluster_key name)
          ≡ some content =
        rw read there in
      let gone =
        L.delete-result container_checkpoint_content (cluster_key name) content after_get there' in
      let cleared =
        L.delete-table container_checkpoint_content (cluster_key name) content after_get there' in
      let after_delete : K.State =
        (K.delete container_checkpoint_content (cluster_key name) after_get).1 in
      let loop =
        update_loop K L container_checkpoint cc (released K) after_delete
          (rw (cleared, read) stored) refl refl
          (inr (L.contains_finalizer-of_remove_finalizer cc.metadata.finalizers cc_finalizer)) in
      (
        L.fresh after_get,
        loop.0,
        L.clock after_get,
        ground (arith, found, deleting, guarded, gone, loop.1),
        ground (arith, found, deleting, guarded, gone, loop.2, cleared, read),
      )
