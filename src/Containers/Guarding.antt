-- ===== src/Containers/Guarding.antt =====
-- The first run of `ContainerCheckpointReconciler.Reconcile` for a checkpoint.
use pod_checkpoint_controlle.Prelude.{ℕ, ◌≡◌, refl, false, none, some, arith, inl}
use pod_checkpoint_controlle.Go.Flow.{requeue_now}
use pod_checkpoint_controlle.Api.Meta.{key_of}
use pod_checkpoint_controlle.Api.Containers.{ContainerCheckpoint}
use pod_checkpoint_controlle.Api.Objects.{container_checkpoint}
use pod_checkpoint_controlle.Kube.Client.{Kube}
use pod_checkpoint_controlle.Kube.Table.{find, store, stamped}
use pod_checkpoint_controlle.Kube.Laws.{Serves}
use pod_checkpoint_controlle.Kube.Sequential.{get-found, update_loop}
use pod_checkpoint_controlle.Containers.{cc_finalizer, with_finalizers, add_finalizer, reconcile}

-- The checkpoint with the controller's finalizer.
abbrev pub guarded : Kube → ContainerCheckpoint → ContainerCheckpoint
guarded K cc = with_finalizers (K.add_finalizer cc.metadata.finalizers cc_finalizer) cc

module _ (K : Kube) (L : Serves K) (cc : ContainerCheckpoint) (s : K.State)
    (stored : find (L.table s) container_checkpoint (key_of cc.metadata) ≡ some cc)
    (live : cc.metadata.deletion_timestamp ≡ none) where
  abbrev after_get : K.State
  after_get = (K.get container_checkpoint (key_of cc.metadata) s).1

  -- Of a stored checkpoint that is not being deleted, with a server that serves the run alone: if it
  -- has not this finalizer, the run adds it, changes nothing else, and asks to be run again at once.
  pub reconcile-guards :
      K.contains_finalizer cc.metadata.finalizers cc_finalizer ≡ false
      → (w : ℕ) × ((reconcile K (key_of cc.metadata) s).0 ≡ requeue_now)
        × (L.table (reconcile K (key_of cc.metadata) s).1
            ≡ store container_checkpoint
                (key_of cc.metadata)
                (some (stamped container_checkpoint w (guarded K cc)))
                (L.table s))
  unfolding reconcile add_finalizer
  reconcile-guards bare =
      let found = get-found K L container_checkpoint _ cc s stored in
      let read = L.get-table container_checkpoint (key_of cc.metadata) s in
      let loop =
        update_loop K L container_checkpoint cc (guarded K) after_get (rw read stored) refl refl
          (inl live) in
      (
        loop.0,
        ground (arith, found, live, bare, loop.1),
        ground (arith, found, live, bare, loop.1, loop.2, read),
      )
