-- ===== src/Pods/Guarding.antt =====
-- The first run of `PodCheckpointReconciler.Reconcile` for a checkpoint.
use pod_checkpoint_controlle.Prelude.{ℕ, ◌≡◌, refl, false, none, some, arith, inl}
use pod_checkpoint_controlle.Go.Flow.{requeue_now}
use pod_checkpoint_controlle.Api.Meta.{key_of}
use pod_checkpoint_controlle.Api.Pods.{PodCheckpoint}
use pod_checkpoint_controlle.Api.Objects.{pod_checkpoint}
use pod_checkpoint_controlle.Kube.Client.{Kube}
use pod_checkpoint_controlle.Kube.Table.{find, store, stamped}
use pod_checkpoint_controlle.Kube.Laws.{Serves}
use pod_checkpoint_controlle.Kube.Sequential.{get-found, patch_loop}
use pod_checkpoint_controlle.Pods.{pc_finalizer, with_finalizers, add_finalizer}
use pod_checkpoint_controlle.Pods.Reconcile.{reconcile}

-- The checkpoint with the controller's finalizer.
abbrev pub guarded : Kube → PodCheckpoint → PodCheckpoint
guarded K pc = with_finalizers (K.add_finalizer pc.metadata.finalizers pc_finalizer) pc

module _ (K : Kube) (L : Serves K) (pc : PodCheckpoint) (s : K.State)
    (stored : find (L.table s) pod_checkpoint (key_of pc.metadata) ≡ some pc)
    (live : pc.metadata.deletion_timestamp ≡ none) where
  abbrev after_get : K.State
  after_get = (K.get pod_checkpoint (key_of pc.metadata) s).1

  -- Of a stored PodCheckpoint that is not being deleted, with a server that serves the run alone: if
  -- it has not this finalizer, the run adds it, changes nothing else, and asks to be run again at
  -- once.
  pub reconcile-guards :
      K.contains_finalizer pc.metadata.finalizers pc_finalizer ≡ false
      → (w : ℕ) × ((reconcile K (key_of pc.metadata) s).0 ≡ requeue_now)
        × (L.table (reconcile K (key_of pc.metadata) s).1
            ≡ store pod_checkpoint
                (key_of pc.metadata)
                (some (stamped pod_checkpoint w (guarded K pc)))
                (L.table s))
  unfolding reconcile add_finalizer
  reconcile-guards bare =
      let found = get-found K L pod_checkpoint _ pc s stored in
      let read = L.get-table pod_checkpoint (key_of pc.metadata) s in
      let loop =
        patch_loop K L pod_checkpoint pc (guarded K) after_get (rw read stored) refl (inl live) in
      (
        loop.0,
        ground (arith, found, live, bare, loop.1),
        ground (arith, found, live, bare, loop.1, loop.2, read),
      )
