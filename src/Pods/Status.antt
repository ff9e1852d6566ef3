-- ===== src/Pods/Status.antt =====
-- Step 10 of `PodCheckpointReconciler.Reconcile`: the statuses of the PodCheckpoint and of its
-- content.
use pod_checkpoint_controlle.Prelude.{ℕ, String, Bool, true, false, Option, some, if◌then◌else◌}
use pod_checkpoint_controlle.Go.Errors.{GoError}
use pod_checkpoint_controlle.Go.Flow.{Reply, Flow, finished, exit, ◌>>=◌, ◌>>◌, call, check}
use pod_checkpoint_controlle.Api.Pods.{PodCheckpoint, PodCheckpointContent}
use pod_checkpoint_controlle.Api.Objects.{pod_checkpoint, pod_checkpoint_content}
use pod_checkpoint_controlle.Kube.Client.{Kube, written, get_modify_write}
use pod_checkpoint_controlle.Containers.{cluster_key}
use pod_checkpoint_controlle.Pods.{content_name, requeue_later}

-- The PodCheckpoint and its content after the two branches of step 10, at a time.
unfoldable pub concluded : Bool → String → ℕ → PodCheckpoint → PodCheckpoint
concluded true agg_err now pc = record pc {
  status = record {
    bound_pod_checkpoint_content_name = some (content_name pc);
    checkpoint_time = some now;
    ready_to_restore = true;
    error_message = "";
  };
}
concluded false agg_err now pc = record pc {
  status = record pc.status { ready_to_restore = false; error_message = agg_err };
}

unfoldable pub concluded_content : Bool → String → ℕ → PodCheckpointContent → PodCheckpointContent
concluded_content true agg_err now pcc = record pcc {
  status = record { checkpoint_time = some now; ready_to_restore = true; error_message = "" };
}
concluded_content false agg_err now pcc = record pcc {
  status = record pcc.status { ready_to_restore = false; error_message = agg_err };
}

abbrev pub with_status : PodCheckpointContent → PodCheckpointContent → PodCheckpointContent
with_status pcc latest = record latest { status = pcc.status }

module _ (K : Kube) where
  open K use {State}

  -- The PodCheckpoint is written as it was read in step 1, in each attempt.
  unfoldable pub write_status : PodCheckpoint → State → Option GoError × State
  write_status pc = K.retry_on_conflict (λ s. written K (K.update_status pod_checkpoint pc s))

  unfoldable pub write_content_status :
      PodCheckpoint → PodCheckpointContent → State → Option GoError × State
  write_content_status pc pcc = K.retry_on_conflict (
      get_modify_write K pod_checkpoint_content (cluster_key (content_name pc)) (with_status pcc)
        (K.update_status pod_checkpoint_content))

  unfoldable pub conclude :
      PodCheckpoint → PodCheckpointContent → Bool → String → Flow Reply State Reply
  unfolding concluded concluded_content write_status write_content_status
  conclude pc pcc all_ready agg_err = do
    now ← call K.now
    failure ← call (write_status (concluded all_ready agg_err now pc))
    check (λ _. false) failure
    content_failure ← call (write_content_status pc (concluded_content all_ready agg_err now pcc))
    check (λ _. false) content_failure
    if all_ready then exit finished else exit requeue_later
