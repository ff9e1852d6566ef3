-- ===== src/Sidecar/Reconciler/Status.antt =====
-- What internal/sidecar/sidecar_checkpoint.go writes into a content, and how.
use pod_checkpoint_controlle.Prelude.{ℕ, String, true, false, Option, some, List}
use pod_checkpoint_controlle.Go.Errors.{GoError, ok, err, error_of}
use pod_checkpoint_controlle.Go.Flow.{Reply, reply_of}
use pod_checkpoint_controlle.Api.Containers.{ContainerCheckpointContent}
use pod_checkpoint_controlle.Api.Objects.{container_checkpoint_content}
use pod_checkpoint_controlle.Kube.Client.{Kube, get_modify_write}
use pod_checkpoint_controlle.Containers.{cluster_key}

abbrev pub marked_failed : String → ContainerCheckpointContent → ContainerCheckpointContent
marked_failed message c = record c {
  status = record c.status { ready_to_restore = false; error_message = message };
}

abbrev pub marked_ready : ℕ → ContainerCheckpointContent → ContainerCheckpointContent
marked_ready now c = record c {
  status = record { ready_to_restore = true; error_message = ""; checkpoint_time = some now };
}

abbrev pub marked_started : ℕ → ContainerCheckpointContent → ContainerCheckpointContent
marked_started now c = record c { status = record c.status { checkpoint_time = some now } }

abbrev pub with_finalizers : List String → ContainerCheckpointContent → ContainerCheckpointContent
with_finalizers l c = record c { metadata = record c.metadata { finalizers = l } }

module _ (K : Kube) where
  open K use {State}

  -- `setErrorStatus`; its own error is only logged.
  unfoldable pub set_error_status : ContainerCheckpointContent → String → State → Unit {0} × State
  set_error_status ccc message s = (
    tt,
    (K.retry_on_conflict
        (get_modify_write K container_checkpoint_content (cluster_key ccc.metadata.name)
          (marked_failed message) (K.update_status container_checkpoint_content))
        s).1,
  )

  -- The function that `updateStatusReady` hands to `RetryOnConflict`: the time is read after the
  -- object.
  unfoldable pub ready_attempt : ContainerCheckpointContent → State → Option GoError × State
  ready_attempt ccc s =
      let (found, s₁) = K.get container_checkpoint_content (cluster_key ccc.metadata.name) s in
      elim found [
        | err e ↦ (some e, s₁)
        | ok fresh ↦
            let (now, s₂) = K.now s₁ in
            let (r, s₃) =
              K.update_status container_checkpoint_content (marked_ready now fresh) s₂ in
            (error_of r, s₃)
      ]

  -- `updateStatusReady`
  unfoldable pub update_status_ready : ContainerCheckpointContent → State → Reply × State
  unfolding ready_attempt
  update_status_ready ccc s =
      let (failure, s') = K.retry_on_conflict (ready_attempt ccc) s in (reply_of failure, s')
