-- ===== src/Sidecar/Reconciler.antt =====
-- internal/sidecar/sidecar_checkpoint.go: `CheckpointReconciler`. The numbered steps of its
-- `Reconcile` are one function each, and `reconcile` composes them.
mod Status
unfoldable pub use Status.*
use Prim.Native.String.{len, slice}
use pod_checkpoint_controlle.Prelude.{
  ℕ, ◌+◌, ◌-◌, String, ◌<>◌, ◌==◌, starts_with, true, false, not, Option, none, some, List, [], ◌∷◌,
  is_some, ltb, if◌then◌else◌,
}
use pod_checkpoint_controlle.Go.Errors.{GoError, ok, err, error_of, seconds, minutes}
use pod_checkpoint_controlle.Go.Flow.{
  Reply, reply_of, finished, requeue_in, Flow, proceed, exit, ◌>>=◌, ◌>>◌, call, or_else,
  unless_nil, answer,
}
use pod_checkpoint_controlle.Api.Meta.{ObjectKey, Pod}
use pod_checkpoint_controlle.Api.Containers.{ContainerCheckpoint, ContainerCheckpointContent}
use pod_checkpoint_controlle.Api.Objects.{container_checkpoint, container_checkpoint_content, pod}
use pod_checkpoint_controlle.Kube.Client.{Kube, get_modify_write}
use pod_checkpoint_controlle.Containers.{cluster_key}
use pod_checkpoint_controlle.Sidecar.Host.{Host}
use pod_checkpoint_controlle.Sidecar.Kubelet.{create_checkpoint}
use pod_checkpoint_controlle.Sidecar.Transfer.{transfer_checkpoint}
use pod_checkpoint_controlle.Sidecar.Manager.{CheckpointReconciler, cleanup_checkpoint_files}

abbrev pub sidecar_finalizer : String
sidecar_finalizer = "checkpointfiles.deletion.sidecar"

-- A checkpoint that was begun is not begun again for five minutes.
abbrev pub attempt_period : ℕ
attempt_period = minutes 5

-- `strings.TrimPrefix`
unfoldable pub trim_prefix : String → String → String
trim_prefix s prefix = if starts_with s prefix then slice s (len prefix) (len s) else s

-- Step 7: the node that a storage location names, with or without its scheme.
unfoldable pub target_of_location : String → String
target_of_location location =
    if starts_with location "node://" then trim_prefix location "node://" else location

module _ (K : Kube) where
  open K use {State}

  abbrev failed : {A : Type 0} → ContainerCheckpointContent → String → Reply → Flow Reply State A
  failed ccc message reply = do call (set_error_status K ccc message); exit reply

  -- Step 1.
  unfoldable pub fetch : ObjectKey → Flow Reply State ContainerCheckpointContent
  fetch req = do
    found ← call (K.get container_checkpoint_content (cluster_key req.name))
    or_else found (λ e. exit (reply_of (K.ignore_not_found e)))

  -- Step 2, the finalizer that is missing; the server's answer replaces the object.
  unfoldable pub ensure_finalizer :
      ContainerCheckpointContent → Flow Reply State ContainerCheckpointContent
  ensure_finalizer ccc =
      if not (K.contains_finalizer ccc.metadata.finalizers sidecar_finalizer)
      then (do
        patched ← call (
            K.patch container_checkpoint_content ccc
              (with_finalizers (K.add_finalizer ccc.metadata.finalizers sidecar_finalizer) ccc))
        or_else patched (λ e. exit (reply_of (some e))))
      else proceed ccc

  -- Step 3: the parent, and the names of its pod and container.
  unfoldable pub fetch_parent : ContainerCheckpointContent → Flow Reply State ContainerCheckpoint
  unfolding set_error_status
  fetch_parent ccc = elim ccc.spec.container_checkpoint_ref [
    | none ↦ failed ccc "missing ContainerCheckpointRef" finished
    | some ref ↦ do
      found ←
          call (K.get container_checkpoint (record { namespace = ref.namespace; name = ref.name }))
      or_else found
          (λ e. failed ccc ("failed to find parent ContainerCheckpoint: " <> e.text) finished)
  ]

  unfoldable pub source_names :
      ContainerCheckpointContent → ContainerCheckpoint → Flow Reply State (String × String)
  unfolding set_error_status
  source_names ccc cc = elim cc.spec.source.pod_name [
    | none ↦ failed ccc "invalid container checkpoint source" finished
    | some pod_name ↦ elim cc.spec.source.container_name [
      | none ↦ failed ccc "invalid container checkpoint source" finished
      | some container_name ↦ proceed (pod_name, container_name)
    ]
  ]

  -- Step 4. With a checkpoint time `t` less than five minutes ago the reconciler comes back when
  -- they have passed: `5*time.Minute - time.Since(t)` is `t + 5 min - now`.
  unfoldable pub skip_ready : ContainerCheckpointContent → Flow Reply State (Unit {0})
  skip_ready ccc = if ccc.status.ready_to_restore then exit finished else proceed tt

  unfoldable pub skip_recent : ContainerCheckpointContent → Flow Reply State (Unit {0})
  skip_recent ccc = elim ccc.status.checkpoint_time [
    | none ↦ proceed tt
    | some t ↦
        if not ccc.status.ready_to_restore
        then (do
          now ← call K.now
          if ltb now (t + attempt_period)
              then exit (requeue_in (t + attempt_period - now))
              else proceed tt)
        else proceed tt
  ]

  -- Step 5.
  unfoldable pub fetch_pod :
      ContainerCheckpointContent → ContainerCheckpoint → String → Flow Reply State Pod
  unfolding set_error_status
  fetch_pod ccc cc pod_name = do
    found ← call (K.get pod (record { namespace = cc.metadata.namespace; name = pod_name }))
    or_else found (λ e. failed ccc ("failed to find pod " <> pod_name <> ": " <> e.text) finished)

  unfoldable pub skip_foreign : String → Pod → Flow Reply State (Unit {0})
  skip_foreign node p = if not (p.spec.node_name == node) then exit finished else proceed tt

  -- Step 6, the mark that a checkpoint is begun.
  unfoldable pub mark_started :
      ContainerCheckpointContent → Flow Reply State ContainerCheckpointContent
  mark_started ccc = do
    now ← call K.now
    patched ← call (K.patch_status container_checkpoint_content ccc (marked_started now ccc))
    or_else patched (λ _. exit (requeue_in (seconds 5)))

  module _ (H : Host K.State) (r : CheckpointReconciler) where
    -- Step 2, the deletion; an error of the cleanup is only logged.
    unfoldable pub on_deletion : ContainerCheckpointContent → Flow Reply State (Unit {0})
    on_deletion ccc =
        if is_some ccc.metadata.deletion_timestamp
        then (if K.contains_finalizer ccc.metadata.finalizers sidecar_finalizer
            then (do
              call (cleanup_checkpoint_files H r.checkpoint_mgr ccc.metadata.name)
              patched ← call (
                  K.patch container_checkpoint_content ccc (
                    with_finalizers (K.remove_finalizer ccc.metadata.finalizers sidecar_finalizer)
                      ccc))
              exit (reply_of (error_of patched)))
            else exit finished)
        else proceed tt

    -- Step 6, the call of the kubelet.
    unfoldable pub take_checkpoint :
        ContainerCheckpointContent
        → ContainerCheckpoint
        → String
        → String
        → Flow Reply State (List String)
    unfolding set_error_status
    take_checkpoint ccc cc pod_name container_name = do
      made ← call (
          create_checkpoint H r.checkpoint_mgr.node_name cc.metadata.namespace pod_name
            container_name)
      unless_nil made.1
          (λ e. failed ccc ("failed to create checkpoint: " <> e.text) (requeue_in (seconds 30)))
      elim made.0 [
        | [] ↦ failed ccc "no checkpoint files were created" (requeue_in (seconds 30))
        | f ∷ fs ↦ proceed (f ∷ fs)
      ]

    -- Step 7: the loop over the files.
    unfoldable pub transfer_all :
        ContainerCheckpointContent → String → List String → Flow Reply State (Unit {0})
    unfolding set_error_status
    transfer_all ccc target [] s = proceed tt s
    transfer_all ccc target (f ∷ fs) s =
        let rest = transfer_all ccc target fs in
        (do
          failure ← call (transfer_checkpoint K H f target)
          unless_nil failure (λ e.
              failed ccc ("failed to transfer checkpoint: " <> e.text) (requeue_in (seconds 30)))
          rest)
          s

    unfoldable pub transfer_files :
        ContainerCheckpointContent → List String → Flow Reply State (Unit {0})
    unfolding target_of_location transfer_all
    transfer_files ccc files =
        if not (ccc.spec.storage_location == "")
        then transfer_all ccc (target_of_location ccc.spec.storage_location) files
        else proceed tt

    -- The steps 4 to 8, on a content with its finalizer and its valid parent.
    unfoldable pub checkpoint :
        ContainerCheckpointContent → ContainerCheckpoint → String × String → Flow Reply State Reply
    unfolding skip_ready skip_recent fetch_pod skip_foreign mark_started take_checkpoint
        transfer_files update_status_ready
    checkpoint ccc cc names = do
      skip_ready ccc
      skip_recent ccc
      p ← fetch_pod ccc cc names.0
      skip_foreign r.node_name p
      started ← mark_started ccc
      files ← take_checkpoint started cc names.0 names.1
      transfer_files started files
      call (update_status_ready K started)

    body : ObjectKey → Flow Reply State Reply
    unfolding fetch on_deletion ensure_finalizer fetch_parent source_names checkpoint
    body req = do
      loaded ← fetch req
      on_deletion loaded
      ccc ← ensure_finalizer loaded
      cc ← fetch_parent ccc
      names ← source_names ccc cc
      checkpoint ccc cc names

    -- `Reconcile`
    unfoldable pub reconcile : ObjectKey → State → Reply × State
    unfolding body
    reconcile req s = answer (body req s)
