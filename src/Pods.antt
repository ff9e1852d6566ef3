-- ===== src/Pods.antt =====
-- internal/controller/podcheckpoint_controller.go: `PodCheckpointReconciler`, the steps 1 to 7 of
-- its `Reconcile`. The steps 8 to 10 are in Pods/Members and Pods/Status, their composition in
-- Pods/Reconcile.
pub mod Members
pub mod Aggregate
pub mod Names
pub mod Status
pub mod Growth
pub mod Passage
pub mod Frame
pub mod Fresh
pub mod Rewritten
pub mod Guarding
pub mod Beginning
pub mod Completion
pub mod Stale
pub mod Conclusion
pub mod Unready
pub mod Reconcile
pub mod Deletion
pub mod Creation
use pod_checkpoint_controlle.Prelude.{
  String, ◌<>◌, ◌==◌, Bool, true, false, not, ◌&&◌, ◌||◌, Option, none, some, List, [], ◌∷◌,
  is_some, if◌then◌else◌,
}
use pod_checkpoint_controlle.Prelude.Dict.{index_or_empty}
use pod_checkpoint_controlle.Go.Errors.{
  GoError, Result, ok, err, is_not_found, is_already_exists, seconds,
}
use pod_checkpoint_controlle.Go.Flow.{
  Reply, reply_of, finished, requeue_now, requeue_in, Flow, proceed, exit, ◌>>=◌, ◌>>◌, call,
  or_else, check,
}
use pod_checkpoint_controlle.Api.Meta.{ObjectKey, key_of, named, Pod}
use pod_checkpoint_controlle.Api.Pods.{PodCheckpoint, PodCheckpointContent}
use pod_checkpoint_controlle.Api.Objects.{pod_checkpoint, pod_checkpoint_content, pod}
use pod_checkpoint_controlle.Kube.Client.{Kube, get_modify_write}
use pod_checkpoint_controlle.Containers.{cluster_key, non_empty, target_node}

abbrev pub pc_finalizer : String
pc_finalizer = "checkpointing.zacchaeuschok.github.io/pc-finalizer"

abbrev pub delete_policy : String
delete_policy = "Delete"

abbrev pub requeue_later : Reply
requeue_later = requeue_in (seconds 8)

-- The change of status of a checkpoint that an error stops.
abbrev pub failed_with : String → PodCheckpoint → PodCheckpoint
failed_with message c = record c {
  status = record c.status { error_message = message; ready_to_restore = false };
}

-- Step 4: the checkpoint is bound to the content that it names and takes over its status.
abbrev pub bound_to : String → PodCheckpointContent → PodCheckpoint → PodCheckpoint
bound_to name content c = record c {
  status = record {
    bound_pod_checkpoint_content_name = some name;
    checkpoint_time = content.status.checkpoint_time;
    ready_to_restore = content.status.ready_to_restore;
    error_message = content.status.error_message;
  };
}

abbrev pub with_finalizers : List String → PodCheckpoint → PodCheckpoint
with_finalizers l c = record c { metadata = record c.metadata { finalizers = l } }

-- Step 7: the name of the content, and the content that is created for a checkpoint of `p`.
abbrev pub content_name : PodCheckpoint → String
content_name pc = pc.metadata.name <> "-pcc"

abbrev pub target_of : PodCheckpoint → String
target_of pc = index_or_empty target_node pc.metadata.annotations

unfoldable pub new_content : PodCheckpoint → String → Pod → PodCheckpointContent
new_content pc pod_name p = record {
  metadata = named "" (content_name pc);
  spec = record {
    pod_checkpoint_ref =
        some (record { name = pc.metadata.name; namespace = pc.metadata.namespace });
    deletion_policy = pc.spec.deletion_policy;
    pod_uid = p.metadata.uid;
    pod_namespace = pc.metadata.namespace;
    pod_name = pod_name;
    storage_location = if not (target_of pc == "") then "node://" <> target_of pc else "";
    container_checkpoints = [];
  };
  status = record { checkpoint_time = none; ready_to_restore = false; error_message = "" };
}

module _ (K : Kube) where
  open K use {State}

  -- `updateStatus`
  unfoldable pub update_status :
      PodCheckpoint → (PodCheckpoint → PodCheckpoint) → State → Option GoError × State
  update_status pc mutate = K.retry_on_conflict (
      get_modify_write K pod_checkpoint (key_of pc.metadata) mutate
        (K.update_status pod_checkpoint))

  -- Step 1.
  unfoldable pub fetch : ObjectKey → Flow Reply State PodCheckpoint
  fetch req = do
    found ← call (K.get pod_checkpoint req)
    or_else found (λ e. exit (reply_of (K.ignore_not_found e)))

  -- Step 2, the content.
  unfoldable pub delete_content : PodCheckpoint → Flow Reply State (Unit {0})
  delete_content pc =
      if pc.spec.deletion_policy == delete_policy
      then elim (non_empty pc.status.bound_pod_checkpoint_content_name) [
        | none ↦ proceed tt
        | some name ↦ do
          failure ← call (K.delete pod_checkpoint_content (cluster_key name))
          check is_not_found failure
      ]
      else proceed tt

  -- Step 2, the finalizer: a patch against the object as step 1 read it.
  unfoldable pub remove_finalizer : ObjectKey → PodCheckpoint → State → Option GoError × State
  remove_finalizer req pc = K.retry_on_conflict (
      get_modify_write K pod_checkpoint req
        (λ c. with_finalizers (K.remove_finalizer c.metadata.finalizers pc_finalizer) c)
        (K.patch pod_checkpoint pc))

  unfoldable pub on_deletion : ObjectKey → PodCheckpoint → Flow Reply State (Unit {0})
  unfolding delete_content remove_finalizer
  on_deletion req pc =
      if is_some pc.metadata.deletion_timestamp
        && K.contains_finalizer pc.metadata.finalizers pc_finalizer
      then (do delete_content pc; failure ← call (remove_finalizer req pc); exit (reply_of failure))
      else proceed tt

  -- Step 3.
  unfoldable pub add_finalizer : ObjectKey → PodCheckpoint → State → Option GoError × State
  add_finalizer req pc = K.retry_on_conflict (
      get_modify_write K pod_checkpoint req
        (λ c. with_finalizers (K.add_finalizer c.metadata.finalizers pc_finalizer) c)
        (K.patch pod_checkpoint pc))

  unfoldable pub ensure_finalizer : ObjectKey → PodCheckpoint → Flow Reply State (Unit {0})
  unfolding add_finalizer
  ensure_finalizer req pc =
      if not (K.contains_finalizer pc.metadata.finalizers pc_finalizer)
      then (do
        failure ← call (add_finalizer req pc)
        elim failure [ none ↦ exit requeue_now | some e ↦ exit (reply_of (some e)) ])
      else proceed tt

  -- Step 4.
  unfoldable pub bind_existing : PodCheckpoint → Flow Reply State (Unit {0})
  unfolding update_status
  bind_existing pc = elim (non_empty pc.spec.source.pod_checkpoint_content_name) [
    | none ↦ proceed tt
    | some name ↦ do
      found ← call (K.get pod_checkpoint_content (cluster_key name))
      existing ← or_else found (λ e. do
        call (update_status pc (failed_with ("content not found: " <> e.text)))
        exit (reply_of (some e)))
      call (update_status pc (bound_to name existing))
      exit finished
  ]

  -- Step 5: the pod's name, and the pod.
  unfoldable pub pod_name : PodCheckpoint → Flow Reply State String
  unfolding update_status
  pod_name pc = elim (non_empty pc.spec.source.pod_name) [
    | none ↦ do call (update_status pc (failed_with "no valid PodName in source")); exit finished
    | some name ↦ proceed name
  ]

  unfoldable pub fetch_pod : PodCheckpoint → String → Flow Reply State Pod
  unfolding update_status
  fetch_pod pc name = do
    found ← call (K.get pod (record { namespace = pc.metadata.namespace; name = name }))
    or_else found (λ e.
        if is_not_found e
        then (do call (update_status pc (failed_with "target pod not found")); exit finished)
        else exit (reply_of (some e)))

  -- Step 6.
  unfoldable pub skip_bound : PodCheckpoint → Flow Reply State (Unit {0})
  skip_bound pc = elim pc.status.bound_pod_checkpoint_content_name [
    | some _ ↦ exit finished
    | none ↦ proceed tt
  ]

  -- Step 7.
  unfoldable pub get_or_create_content :
      PodCheckpoint → String → Pod → Flow Reply State PodCheckpointContent
  unfolding new_content
  get_or_create_content pc name p = do
    found ← call (K.get pod_checkpoint_content (cluster_key (content_name pc)))
    or_else found (λ e.
        if is_not_found e
        then (do
          created ← call (K.create pod_checkpoint_content (new_content pc name p))
          or_else created
              (λ c. if is_already_exists c then exit requeue_later else exit (reply_of (some c)))
          exit requeue_later)
        else exit (reply_of (some e)))
