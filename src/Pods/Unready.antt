-- ===== src/Pods/Unready.antt =====
-- What step 10 of `PodCheckpointReconciler.Reconcile` writes while a container is not ready.
use pod_checkpoint_controlle.Prelude.{ℕ, String, ◌≡◌, ap, false, none, some, arith}
use pod_checkpoint_controlle.Go.Flow.{answer}
use pod_checkpoint_controlle.Api.Meta.{key_of}
use pod_checkpoint_controlle.Api.Pods.{PodCheckpoint, PodCheckpointStatus, PodCheckpointContent}
use pod_checkpoint_controlle.Api.Objects.{pod_checkpoint, pod_checkpoint_content}
use pod_checkpoint_controlle.Kube.Client.{Kube}
use pod_checkpoint_controlle.Kube.Table.{find, store, stamped}
use pod_checkpoint_controlle.Kube.Laws.{Serves}
use pod_checkpoint_controlle.Containers.{cluster_key}
use pod_checkpoint_controlle.Pods.{content_name, requeue_later}
use pod_checkpoint_controlle.Pods.Status.{write_status, conclude}
use pod_checkpoint_controlle.Pods.Conclusion.{write_status-eq, write_status-table, content_loop}

-- The statuses that say so.
abbrev pub unready : String → PodCheckpoint → PodCheckpoint
unready message pc = record pc {
  status = record pc.status { ready_to_restore = false; error_message = message };
}

abbrev pub unready_content : String → PodCheckpointContent → PodCheckpointContent
unready_content message pcc = record pcc {
  status = record pcc.status { ready_to_restore = false; error_message = message };
}

module _ (K : Kube) (L : Serves K) (pc : PodCheckpoint) (pcc : PodCheckpointContent) (s : K.State)
    (stored : find (L.table s) pod_checkpoint (key_of pc.metadata) ≡ some pc)
    (placed : key_of pcc.metadata ≡ cluster_key (content_name pc))
    (held : find (L.table s) pod_checkpoint_content (key_of pcc.metadata) ≡ some pcc) where
  abbrev after_now : K.State
  after_now = (K.now s).1

  -- Of a PodCheckpoint that is stored as step 1 read it, and its content, which is stored as step 7
  -- read it, with a server that serves step 10 alone: if step 9 found that not all are ready, both
  -- are marked as not ready, with the message that step 9 found; what they said of a time and a
  -- binding is kept, nothing else changes, and the reconciler comes back in eight seconds.
  pub conclude-unready :
      (message : String)
      → (v w : ℕ) × ((answer (conclude K pc pcc false message s)).0 ≡ requeue_later)
        × (L.table (answer (conclude K pc pcc false message s)).1
            ≡ store pod_checkpoint_content
                (key_of pcc.metadata)
                (some (stamped pod_checkpoint_content w (unready_content message pcc)))
                (store pod_checkpoint
                  (key_of pc.metadata)
                  (some (stamped pod_checkpoint v (unready message pc)))
                  (L.table s)))
  unfolding conclude
  conclude-unready message =
      let clock = L.now-table s in
      let status : PodCheckpointStatus = (unready message pc).status in
      let stored' : find (L.table after_now) pod_checkpoint (key_of pc.metadata) ≡ some pc =
        rw clock stored in
      let wrote = write_status-eq K L pc status after_now stored' in
      let wrote_none : (write_status K (unready message pc) after_now).0 ≡ none =
        ap (λ r. r.0) wrote in
      let wrote_table = write_status-table K L pc status after_now stored' in
      let u : K.State = (write_status K (unready message pc) after_now).1 in
      let held' : find (L.table u) pod_checkpoint_content (key_of pcc.metadata) ≡ some pcc =
        rw (wrote_table, clock) held in
      let loop =
        content_loop K L pc pcc s stored placed held (unready_content message pcc).status u held' in
      (
        L.fresh after_now,
        loop.0,
        ground (arith, wrote_none, loop.1),
        ground (arith, wrote_none, loop.1, loop.2, wrote_table, clock),
      )
