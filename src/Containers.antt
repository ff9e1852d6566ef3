-- ===== src/Containers.antt =====
-- internal/controller/containercheckpoint_controller.go: `ContainerCheckpointReconciler`. The
-- numbered steps of its `Reconcile` are one function each, and `reconcile` composes them.
pub mod Validated
pub mod Content
pub mod Deletion
pub mod Guarding
use pod_checkpoint_controlle.Prelude.{
  String, ◌<>◌, ◌==◌, Bool, true, false, not, ◌&&◌, Option, none, some, List, [], ◌∷◌, is_some,
  if◌then◌else◌,
}
use pod_checkpoint_controlle.Prelude.Dict.{index}
use pod_checkpoint_controlle.Go.Errors.{GoError, is_not_found, is_already_exists, seconds}
use pod_checkpoint_controlle.Go.Flow.{
  Reply, reply_of, finished, requeue_now, requeue_in, Flow, proceed, exit, ◌>>=◌, ◌>>◌, call,
  or_else, check, answer,
}
use pod_checkpoint_controlle.Api.Meta.{ObjectKey, key_of, named, Container}
use pod_checkpoint_controlle.Api.Containers.{ContainerCheckpoint, ContainerCheckpointContent}
use pod_checkpoint_controlle.Api.Objects.{container_checkpoint, container_checkpoint_content, pod}
use pod_checkpoint_controlle.Kube.Client.{Kube, get_modify_write}

abbrev pub cc_finalizer : String
cc_finalizer = "checkpointing.zacchaeuschok.github.io/cc-finalizer"

abbrev pub target_node : String
target_node = "checkpointing.zacchaeuschok.github.io/targetNode"

-- The key of a cluster-scoped object.
abbrev pub cluster_key : String → ObjectKey
cluster_key name = record { namespace = ""; name = name }

-- `p != nil && *p != ""`, with the text.
abbrev pub non_empty : Option String → Option String
non_empty none = none
non_empty (some s) = if s == "" then none else some s

-- The loop of step 5: does the pod have a container of this name?
unfoldable pub has_container : String → List Container → Bool
has_container name [] = false
has_container name (c ∷ cs) = if c.name == name then true else has_container name cs

-- Step 7: where the content is stored.
unfoldable pub storage_location : ContainerCheckpoint → String
storage_location cc = elim (index target_node cc.metadata.annotations) [
  | none ↦ "local"
  | some t ↦ if not (t == "") then "node://" <> t else "local"
]

-- Step 7: the content that is created for a checkpoint.
unfoldable pub new_content : ContainerCheckpoint → ContainerCheckpointContent
unfolding storage_location
new_content cc = record {
  metadata = record (named "" cc.metadata.name) {
    labels = some (("checkpoint", cc.metadata.name) ∷ []);
  };
  spec = record {
    container_checkpoint_ref =
        some (record { name = cc.metadata.name; namespace = cc.metadata.namespace });
    deletion_policy = cc.spec.deletion_policy;
    storage_location = storage_location cc;
  };
  status = record { ready_to_restore = false; error_message = ""; checkpoint_time = none };
}

-- The change of status of a checkpoint that an error stops.
abbrev pub failed_with : String → ContainerCheckpoint → ContainerCheckpoint
failed_with message c = record c {
  status = record c.status { error_message = message; ready_to_restore = false };
}

-- Steps 4 and 8: the checkpoint is bound to its content and takes over its status.
abbrev pub mirrored :
    String → ContainerCheckpointContent → ContainerCheckpoint → ContainerCheckpoint
mirrored name content c = record c {
  status = record {
    bound_container_checkpoint_content_name = some name;
    ready_to_restore = content.status.ready_to_restore;
    error_message = content.status.error_message;
    checkpoint_time = content.status.checkpoint_time;
  };
}

abbrev pub with_finalizers : List String → ContainerCheckpoint → ContainerCheckpoint
with_finalizers l c = record c { metadata = record c.metadata { finalizers = l } }

module _ (K : Kube) where
  open K use {State}

  -- `updateStatus`
  unfoldable pub update_status :
      ContainerCheckpoint
      → (ContainerCheckpoint → ContainerCheckpoint)
      → State
      → Option GoError × State
  update_status cc mutate = K.retry_on_conflict (
      get_modify_write K container_checkpoint (key_of cc.metadata) mutate
        (K.update_status container_checkpoint))

  -- Step 1.
  unfoldable pub fetch : ObjectKey → Flow Reply State ContainerCheckpoint
  fetch req = do
    found ← call (K.get container_checkpoint req)
    or_else found (λ e. exit (reply_of (K.ignore_not_found e)))

  -- Step 2, the content.
  unfoldable pub delete_content : ContainerCheckpoint → Flow Reply State (Unit {0})
  delete_content cc =
      if cc.spec.deletion_policy == "Delete"
      then elim (non_empty cc.status.bound_container_checkpoint_content_name) [
        | none ↦ proceed tt
        | some name ↦ do
          failure ← call (K.delete container_checkpoint_content (cluster_key name))
          check is_not_found failure
      ]
      else proceed tt

  -- Step 2, the finalizer.
  unfoldable pub remove_finalizer : ObjectKey → State → Option GoError × State
  remove_finalizer req = K.retry_on_conflict (
      get_modify_write K container_checkpoint req
        (λ c. with_finalizers (K.remove_finalizer c.metadata.finalizers cc_finalizer) c)
        (K.update container_checkpoint))

  unfoldable pub on_deletion : ObjectKey → ContainerCheckpoint → Flow Reply State (Unit {0})
  unfolding delete_content remove_finalizer
  on_deletion req cc =
      if is_some cc.metadata.deletion_timestamp
        && K.contains_finalizer cc.metadata.finalizers cc_finalizer
      then (do delete_content cc; failure ← call (remove_finalizer req); exit (reply_of failure))
      else proceed tt

  -- Step 3.
  unfoldable pub add_finalizer : ObjectKey → State → Option GoError × State
  add_finalizer req = K.retry_on_conflict (
      get_modify_write K container_checkpoint req
        (λ c. with_finalizers (K.add_finalizer c.metadata.finalizers cc_finalizer) c)
        (K.update container_checkpoint))

  unfoldable pub ensure_finalizer : ObjectKey → ContainerCheckpoint → Flow Reply State (Unit {0})
  unfolding add_finalizer
  ensure_finalizer req cc =
      if not (K.contains_finalizer cc.metadata.finalizers cc_finalizer)
      then (do
        failure ← call (add_finalizer req)
        elim failure [ none ↦ exit requeue_now | some e ↦ exit (reply_of (some e)) ])
      else proceed tt

  -- Step 4.
  unfoldable pub bind_existing : ContainerCheckpoint → Flow Reply State (Unit {0})
  unfolding update_status
  bind_existing cc = elim (non_empty cc.spec.source.container_checkpoint_content_name) [
    | none ↦ proceed tt
    | some name ↦ do
      found ← call (K.get container_checkpoint_content (cluster_key name))
      existing ← or_else found (λ e. do
        call (update_status cc (failed_with ("content reference not found: " <> e.text)))
        exit (reply_of (some e)))
      call (update_status cc (mirrored name existing))
      exit finished
  ]

  -- Step 5: the pod and container names, then the pod, then the container.
  unfoldable pub source_names : ContainerCheckpoint → Flow Reply State (String × String)
  unfolding update_status
  source_names cc = elim cc.spec.source.pod_name [
    | none ↦ do
      call (update_status cc (failed_with "no valid container source specified"))
      exit finished
    | some pod_name ↦ elim cc.spec.source.container_name [
      | none ↦ do
        call (update_status cc (failed_with "no valid container source specified"))
        exit finished
      | some container_name ↦ proceed (pod_name, container_name)
    ]
  ]

  unfoldable pub validate_source : ContainerCheckpoint → Flow Reply State (Unit {0})
  unfolding source_names update_status has_container
  validate_source cc = do
    names ← source_names cc
    found ← call (K.get pod (record { namespace = cc.metadata.namespace; name = names.0 }))
    p ← or_else found (λ e. do
      call (update_status cc (failed_with ("pod lookup failed: " <> e.text)))
      exit (reply_of (some e)))
    if has_container names.1 p.spec.containers
        then proceed tt
        else (do call (update_status cc (failed_with "container not found in pod")); exit finished)

  -- Step 6.
  unfoldable pub skip_bound : ContainerCheckpoint → Flow Reply State (Unit {0})
  skip_bound cc = elim cc.status.bound_container_checkpoint_content_name [
    | some _ ↦ exit finished
    | none ↦ proceed tt
  ]

  -- Step 7.
  unfoldable pub get_or_create_content :
      ContainerCheckpoint → Flow Reply State ContainerCheckpointContent
  unfolding new_content
  get_or_create_content cc = do
    found ← call (K.get container_checkpoint_content (cluster_key cc.metadata.name))
    or_else found (λ e.
        if is_not_found e
        then (do
          created ← call (K.create container_checkpoint_content (new_content cc))
          or_else created (λ c.
              if is_already_exists c
              then exit (requeue_in (seconds 5))
              else exit (reply_of (some c)))
          exit (requeue_in (seconds 5)))
        else exit (reply_of (some e)))

  -- Step 8.
  unfoldable pub mirror_status :
      ContainerCheckpoint → ContainerCheckpointContent → Flow Reply State Reply
  unfolding update_status
  mirror_status cc content =
      if not content.status.ready_to_restore then exit (requeue_in (seconds 5)) else (do
        failure ← call (update_status cc (mirrored cc.metadata.name content))
        exit (reply_of failure))

  body : ObjectKey → Flow Reply State Reply
  unfolding fetch on_deletion ensure_finalizer bind_existing validate_source skip_bound
      get_or_create_content mirror_status
  body req = do
    cc ← fetch req
    on_deletion req cc
    ensure_finalizer req cc
    bind_existing cc
    validate_source cc
    skip_bound cc
    content ← get_or_create_content cc
    mirror_status cc content

  -- `Reconcile`
  unfoldable pub reconcile : ObjectKey → State → Reply × State
  unfolding body
  reconcile req s = answer (body req s)
