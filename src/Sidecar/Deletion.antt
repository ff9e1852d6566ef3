-- ===== src/Sidecar/Deletion.antt =====
-- What a sidecar's `CheckpointReconciler.Reconcile` does for a content that is being deleted.
use pod_checkpoint_controlle.Prelude.{
  ℕ, String, ◌≡◌, ◌<>◌, refl, ◌∙◌, true, some, List, [], ◌∷◌, arith, inl, inr,
}
use pod_checkpoint_controlle.Go.Errors.{Result-cases}
use pod_checkpoint_controlle.Go.Flow.{finished}
use pod_checkpoint_controlle.Api.Meta.{key_of}
use pod_checkpoint_controlle.Api.Containers.{ContainerCheckpointContent}
use pod_checkpoint_controlle.Api.Objects.{container_checkpoint_content}
use pod_checkpoint_controlle.Kube.Client.{Kube}
use pod_checkpoint_controlle.Kube.Table.{find, store, settle}
use pod_checkpoint_controlle.Kube.Laws.{Serves, IsAllowed}
use pod_checkpoint_controlle.Kube.Sequential.{get-found}
use pod_checkpoint_controlle.Containers.{cluster_key}
use pod_checkpoint_controlle.Sidecar.Host.{Host}
use pod_checkpoint_controlle.Sidecar.Manager.{
  CheckpointManager, CheckpointReconciler, remove_all, cleanup_checkpoint_files,
}
use pod_checkpoint_controlle.Sidecar.Reconciler.{
  sidecar_finalizer, with_finalizers, on_deletion, reconcile,
}

-- The content as the patch that drops the finalizer leaves it.
abbrev pub released : Kube → ContainerCheckpointContent → ContainerCheckpointContent
released K c = with_finalizers (K.remove_finalizer c.metadata.finalizers sidecar_finalizer) c

-- The node's files are apart from the objects of the API server.
pub record IsApart (K : Kube) (L : Serves K) (H : Host K.State) : Type 0 where
  pub globs : (pattern : String) (s : K.State) → L.table (H.glob pattern s).1 ≡ L.table s
  pub removes : (path : String) (s : K.State) → L.table (H.remove path s).1 ≡ L.table s

module _ (K : Kube) (L : Serves K) (H : Host K.State) (A : IsApart K L H) where
  remove_all_lem : (files : List String) (s : K.State) → L.table (remove_all H files s) ≡ L.table s
  unfolding remove_all
  remove_all_lem [] s = refl
  remove_all_lem (f ∷ fs) s = remove_all_lem fs (H.remove f s).1 ∙ A.removes f s

  cleanup_checkpoint_files_lem :
      (cm : CheckpointManager) (name : String) (s : K.State)
      → L.table (cleanup_checkpoint_files H cm name s).1 ≡ L.table s
  unfolding cleanup_checkpoint_files
  cleanup_checkpoint_files_lem cm name s =
      elim (Result-cases (H.glob (H.join cm.checkpoint_dir (name <> "-*")) s).0) [
        | inl (e, failed) ↦ rw (failed, cleanup_checkpoint_files) (A.globs _ s)
        | inr (files, listed) ↦
            rw (listed, cleanup_checkpoint_files) (remove_all_lem files _ ∙ A.globs _ s)
      ]

  module _ (r : CheckpointReconciler) (c : ContainerCheckpointContent) (s : K.State)
      (placed : key_of c.metadata ≡ cluster_key c.metadata.name)
      (stored : find (L.table s) container_checkpoint_content (key_of c.metadata) ≡ some c) {at : ℕ}
      (deleting : c.metadata.deletion_timestamp ≡ some at)
      (guarded : K.contains_finalizer c.metadata.finalizers sidecar_finalizer ≡ true) where
    abbrev after_get : K.State
    after_get = (K.get container_checkpoint_content (cluster_key c.metadata.name) s).1

    abbrev cleaned : K.State
    cleaned = (cleanup_checkpoint_files H r.checkpoint_mgr c.metadata.name after_get).1

    table-cleaned : L.table cleaned ≡ L.table s
    table-cleaned =
        cleanup_checkpoint_files_lem r.checkpoint_mgr c.metadata.name after_get
        ∙ L.get-table container_checkpoint_content (cluster_key c.metadata.name) s

    allowed : IsAllowed K container_checkpoint_content c (released K c)
    allowed = inr (L.contains_finalizer-of_remove_finalizer c.metadata.finalizers sidecar_finalizer)

    -- Of a stored content that is being deleted and has this finalizer, with a server that serves
    -- the run alone and files that are apart from its objects: the sidecar of any node, whether the
    -- pod ran on it or not, and whether its files could be removed or not, drops the finalizer,
    -- changes nothing else, and asks for no other run.
    pub reconcile-drops :
        (w : ℕ) × ((reconcile K H r (cluster_key c.metadata.name) s).0 ≡ finished)
        × (L.table (reconcile K H r (cluster_key c.metadata.name) s).1
            ≡ store container_checkpoint_content
                (key_of c.metadata)
                (settle container_checkpoint_content w (released K c))
                (L.table s))
    unfolding reconcile on_deletion
    reconcile-drops =
        let found =
          get-found K L container_checkpoint_content (cluster_key c.metadata.name) c s
            (rw (← placed) stored) in
        let there : find (L.table cleaned) container_checkpoint_content (key_of c.metadata)
            ≡ some c =
          rw table-cleaned stored in
        let wrote =
          L.patch-result container_checkpoint_content c (released K c) cleaned there allowed in
        let table =
          L.patch-table container_checkpoint_content c (released K c) cleaned there allowed in
        (
          L.fresh cleaned,
          ground (arith, found, deleting, guarded, wrote),
          ground (arith, found, deleting, guarded, table, table-cleaned),
        )
