-- ===== src/Pods/Conclusion.antt =====
-- What step 10 of `PodCheckpointReconciler.Reconcile` writes.
use pod_checkpoint_controlle.Prelude.{ℕ, String, ◌≡◌, refl, ap, ◌∙◌, true, none, some, arith}
use pod_checkpoint_controlle.Go.Flow.{finished, answer}
use pod_checkpoint_controlle.Api.Meta.{key_of}
use pod_checkpoint_controlle.Api.Pods.{
  PodCheckpoint, PodCheckpointStatus, PodCheckpointContent, PodCheckpointContentStatus,
}
use pod_checkpoint_controlle.Api.Objects.{pod_checkpoint, pod_checkpoint_content}
use pod_checkpoint_controlle.Kube.Retry.{conflicted}
use pod_checkpoint_controlle.Kube.Client.{Kube, written}
use pod_checkpoint_controlle.Kube.Table.{find, store, stamped}
use pod_checkpoint_controlle.Kube.Laws.{Serves}
use pod_checkpoint_controlle.Kube.Sequential.{retry-settles, status_loop}
use pod_checkpoint_controlle.Containers.{cluster_key}
use pod_checkpoint_controlle.Pods.{content_name}
use pod_checkpoint_controlle.Pods.Status.{with_status, write_status, write_content_status, conclude}

module _ (K : Kube) (L : Serves K) (pc : PodCheckpoint) where
  -- The PodCheckpoint is stored as it was read in step 1: its status is written at the first attempt.
  module _ (status : PodCheckpointStatus) (s : K.State)
      (stored : find (L.table s) pod_checkpoint (key_of pc.metadata) ≡ some pc) where
    abbrev pub new : PodCheckpoint
    new = record pc { status = status }

    one_write :
        written K (K.update_status pod_checkpoint new s)
        ≡ (none, (K.update_status pod_checkpoint new s).1)
    one_write = rw (L.update_status-result pod_checkpoint new pc s stored refl) refl

    pub write_status-eq : write_status K new s ≡ (none, (K.update_status pod_checkpoint new s).1)
    unfolding write_status
    write_status-eq =
        retry-settles K L (λ u. written K (K.update_status pod_checkpoint new u)) s
          (ap (λ r. conflicted r.0) one_write)
        ∙ one_write

    pub write_status-table :
        L.table (write_status K new s).1
        ≡ store pod_checkpoint
            (key_of pc.metadata)
            (some (stamped pod_checkpoint (L.fresh s) new))
            (L.table s)
    write_status-table =
        ap (λ r. L.table r.1) write_status-eq
        ∙ L.update_status-table pod_checkpoint new pc s stored refl

  module _ (pcc : PodCheckpointContent) (s : K.State)
      (stored : find (L.table s) pod_checkpoint (key_of pc.metadata) ≡ some pc)
      (placed : key_of pcc.metadata ≡ cluster_key (content_name pc))
      (held : find (L.table s) pod_checkpoint_content (key_of pcc.metadata) ≡ some pcc) where
    pub content_loop :
        (content_status : PodCheckpointContentStatus) (u : K.State)
        → find (L.table u) pod_checkpoint_content (key_of pcc.metadata) ≡ some pcc
        → (w : ℕ) × ((write_content_status K pc (record pcc { status = content_status }) u).0
            ≡ none)
          × (L.table (write_content_status K pc (record pcc { status = content_status }) u).1
              ≡ store pod_checkpoint_content
                  (key_of pcc.metadata)
                  (some (stamped pod_checkpoint_content w (record pcc { status = content_status })))
                  (L.table u))
    unfolding write_content_status
    content_loop content_status u there =
        rw (write_content_status, ← placed)
          (status_loop K L pod_checkpoint_content pcc
            (with_status (record pcc { status = content_status })) u there refl refl)

    module _ (message : String) where
      abbrev now : ℕ
      now = (K.now s).0

      -- Of a PodCheckpoint that is stored as step 1 read it, and its content, which is stored as step
      -- 7 read it, with a server that serves step 10 alone: if every ContainerCheckpoint is ready,
      -- both are marked as ready with no error, at one time, the PodCheckpoint is bound to its
      -- content, nothing else changes, and no requeue is asked for.
      pub conclude-ready :
          (t v w : ℕ) × ((answer (conclude K pc pcc true message s)).0 ≡ finished)
          × (L.table (answer (conclude K pc pcc true message s)).1
              ≡ store pod_checkpoint_content
                  (key_of pcc.metadata)
                  (some (
                    stamped pod_checkpoint_content w (record pcc {
                      status = record {
                        checkpoint_time = some t;
                        ready_to_restore = true;
                        error_message = "";
                      };
                    })))
                  (store pod_checkpoint
                    (key_of pc.metadata)
                    (some (
                      stamped pod_checkpoint v (record pc {
                        status = record {
                          bound_pod_checkpoint_content_name = some (content_name pc);
                          checkpoint_time = some t;
                          ready_to_restore = true;
                          error_message = "";
                        };
                      })))
                    (L.table s)))
      unfolding conclude
      conclude-ready =
          let status : PodCheckpointStatus = record {
            bound_pod_checkpoint_content_name = some (content_name pc);
            checkpoint_time = some now;
            ready_to_restore = true;
            error_message = "";
          } in
          let after_now : K.State = (K.now s).1 in
          let clock = L.now-table s in
          let stored' : find (L.table after_now) pod_checkpoint (key_of pc.metadata) ≡ some pc =
            rw clock stored in
          let wrote = write_status-eq status after_now stored' in
          let wrote_none : (write_status K (record pc { status = status }) after_now).0 ≡ none =
            ap (λ r. r.0) wrote in
          let wrote_table = write_status-table status after_now stored' in
          let u : K.State = (write_status K (record pc { status = status }) after_now).1 in
          let held' : find (L.table u) pod_checkpoint_content (key_of pcc.metadata) ≡ some pcc =
            rw (wrote_table, clock) held in
          let loop =
            content_loop
              (record { checkpoint_time = some now; ready_to_restore = true; error_message = "" }) u
              held' in
          (
            now,
            L.fresh after_now,
            loop.0,
            ground (arith, wrote_none, loop.1),
            ground (arith, wrote_none, loop.1, loop.2, wrote_table, clock),
          )
