-- ===== src/Pods/Deletion.antt =====
-- What `PodCheckpointReconciler.Reconcile` does for a checkpoint that is being deleted.
use pod_checkpoint_controlle.Prelude.{ℕ, String, ◌==◌, ◌≡◌, refl, true, false, some, arith, inr}
use pod_checkpoint_controlle.Go.Errors.{ok}
use pod_checkpoint_controlle.Go.Flow.{finished}
use pod_checkpoint_controlle.Api.Meta.{key_of}
use pod_checkpoint_controlle.Api.Pods.{PodCheckpoint, PodCheckpointContent}
use pod_checkpoint_controlle.Api.Objects.{pod_checkpoint, pod_checkpoint_content}
use pod_checkpoint_controlle.Kube.Client.{Kube}
use pod_checkpoint_controlle.Kube.Table.{find, store, settle}
use pod_checkpoint_controlle.Kube.Laws.{Serves, doomed}
use pod_checkpoint_controlle.Kube.Sequential.{get-found, patch_loop}
use pod_checkpoint_controlle.Containers.{cluster_key, non_empty}
use pod_checkpoint_controlle.Pods.{pc_finalizer, delete_policy, with_finalizers}
use pod_checkpoint_controlle.Pods.Reconcile.{reconcile}

-- The checkpoint as the patch that drops the finalizer leaves it.
abbrev pub released : Kube → PodCheckpoint → PodCheckpoint
released K pc = with_finalizers (K.remove_finalizer pc.metadata.finalizers pc_finalizer) pc

module _ (K : Kube) (L : Serves K) (pc : PodCheckpoint) (s : K.State)
    (stored : find (L.table s) pod_checkpoint (key_of pc.metadata) ≡ some pc) {at : ℕ}
    (deleting : pc.metadata.deletion_timestamp ≡ some at)
    (guarded : K.contains_finalizer pc.metadata.finalizers pc_finalizer ≡ true) where
  abbrev after_get : K.State
  after_get = (K.get pod_checkpoint (key_of pc.metadata) s).1

  found : (K.get pod_checkpoint (key_of pc.metadata) s).0 ≡ ok pc
  found = get-found K L pod_checkpoint _ pc s stored

  -- Of a stored PodCheckpoint that is being deleted and has this finalizer, with a server that
  -- serves the run alone: with a policy other than "Delete" the finalizer is dropped and no content
  -- is touched.
  pub reconcile-releases :
      (pc.spec.deletion_policy == delete_policy) ≡ false
      → (w : ℕ) × ((reconcile K (key_of pc.metadata) s).0 ≡ finished)
        × (L.table (reconcile K (key_of pc.metadata) s).1
            ≡ store pod_checkpoint
                (key_of pc.metadata)
                (settle pod_checkpoint w (released K pc))
                (L.table s))
  unfolding reconcile
  reconcile-releases retain =
      let loop =
        patch_loop K L pod_checkpoint pc (released K) after_get (rw L.get-table stored) refl
          (inr (L.contains_finalizer-of_remove_finalizer pc.metadata.finalizers pc_finalizer)) in
      (
        loop.0,
        ground (arith, found, deleting, guarded, loop.1),
        ground (
          arith,
          found,
          deleting,
          guarded,
          loop.2,
          L.get-table pod_checkpoint (key_of pc.metadata) s,
        ),
      )

  -- Of a stored PodCheckpoint that is being deleted and has this finalizer, with a server that
  -- serves the run alone: with the policy "Delete" the bound content, which is stored, is deleted,
  -- and then the finalizer is dropped.
  pub reconcile-clears :
      (pc.spec.deletion_policy == delete_policy) ≡ true
      → {name : String} → non_empty pc.status.bound_pod_checkpoint_content_name ≡ some name
      → {content : PodCheckpointContent}
      → find (L.table s) pod_checkpoint_content (cluster_key name) ≡ some content
      → (v w time : ℕ) × ((reconcile K (key_of pc.metadata) s).0 ≡ finished)
        × (L.table (reconcile K (key_of pc.metadata) s).1
            ≡ store pod_checkpoint (key_of pc.metadata) (settle pod_checkpoint w (released K pc)) (
                store pod_checkpoint_content
                  (cluster_key name)
                  (settle pod_checkpoint_content v (doomed pod_checkpoint_content time content))
                  (L.table s)))
  unfolding reconcile
  reconcile-clears policy {name} bound {content} there =
      let read = L.get-table pod_checkpoint (key_of pc.metadata) s in
      let there' : find (L.table after_get) pod_checkpoint_content (cluster_key name)
          ≡ some content =
        rw read there in
      let gone =
        L.delete-result pod_checkpoint_content (cluster_key name) content after_get there' in
      let cleared =
        L.delete-table pod_checkpoint_content (cluster_key name) content after_get there' in
      let after_delete : K.State =
        (K.delete pod_checkpoint_content (cluster_key name) after_get).1 in
      let loop =
        patch_loop K L pod_checkpoint pc (released K) after_delete (rw (cleared, read) stored) refl
          (inr (L.contains_finalizer-of_remove_finalizer pc.metadata.finalizers pc_finalizer)) in
      (
        L.fresh after_get,
        loop.0,
        L.clock after_get,
        ground (arith, found, deleting, guarded, gone, loop.1),
        ground (arith, found, deleting, guarded, gone, loop.2, cleared, read),
      )
