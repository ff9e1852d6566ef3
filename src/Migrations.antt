-- ===== src/Migrations.antt =====
-- internal/controller/podmigration_controller.go: `PodMigrationReconciler`.
pub mod Phases
pub mod Restore
pub mod Refinement
pub mod Graph
pub mod Runs
pub mod Changes
use pod_checkpoint_controlle.Prelude.{
  String, ◌<>◌, ◌==◌, false, Option, none, some, List, [], ◌∷◌, if◌then◌else◌,
}
use pod_checkpoint_controlle.Go.Errors.{GoError, ok, err, is_not_found, is_already_exists, seconds}
use pod_checkpoint_controlle.Go.Flow.{
  Reply, reply_of, finished, requeue_in, Flow, proceed, exit, ◌>>=◌, ◌>>◌, call, or_else, check,
  answer,
}
use pod_checkpoint_controlle.Api.Meta.{
  ObjectKey, ObjectMeta, key_of, named, Container, Pod, not_running,
}
use pod_checkpoint_controlle.Api.Pods.{PodCheckpoint}
use pod_checkpoint_controlle.Api.Migrations.{
  PodMigrationPhase, unset, pending, checkpointing, restoring, succeeded, failed, unknown,
  PodMigration,
}
use pod_checkpoint_controlle.Api.Objects.{pod_checkpoint, pod_migration, pod}
use pod_checkpoint_controlle.Kube.Client.{Kube, get_modify_write}
use pod_checkpoint_controlle.Containers.{target_node}

abbrev pub checkpoint_name : PodMigration → String
checkpoint_name pm = pm.metadata.name <> "-checkpoint"

abbrev pub restored_name : PodMigration → String
restored_name pm = pm.metadata.name <> "-restored"

-- `handlePending`: the PodCheckpoint that is created, before its owner is set.
unfoldable pub new_checkpoint : PodMigration → PodCheckpoint
new_checkpoint pm = record {
  metadata = record (named pm.metadata.namespace (checkpoint_name pm)) {
    annotations = some ((target_node, pm.spec.target_node) ∷ []);
  };
  spec = record {
    source = record { pod_name = some pm.spec.source_pod_name; pod_checkpoint_content_name = none };
    deletion_policy = "Retain";
  };
  status = record {
    bound_pod_checkpoint_content_name = none;
    checkpoint_time = none;
    ready_to_restore = false;
    error_message = "";
  };
}

abbrev pub with_metadata : ObjectMeta → PodCheckpoint → PodCheckpoint
with_metadata m cp = record cp { metadata = m }

-- The changes of status that the handlers hand to `updateStatus`.
abbrev pub to_checkpointing : String → PodMigration → PodMigration
to_checkpointing name m = record m {
  status = record m.status {
    phase = checkpointing;
    bound_checkpoint_name = name;
    message = "Requested PodCheckpoint";
  };
}

abbrev pub to_restoring : PodMigration → PodMigration
to_restoring m = record m {
  status = record m.status { phase = restoring; message = "Checkpoint is ready; restoring" };
}

abbrev pub to_failed : String → PodMigration → PodMigration
to_failed message m = record m { status = record m.status { phase = failed; message = message } }

abbrev pub to_succeeded : String → String → PodMigration → PodMigration
to_succeeded name message m = record m {
  status = record m.status { phase = succeeded; restored_pod_name = name; message = message };
}

-- `handleRestoring`: the restored pod, for the source pod and its first container.
unfoldable pub restored_pod : PodMigration → Pod → Container → Pod
restored_pod pm source c = record {
  metadata = record (named pm.metadata.namespace (restored_name pm)) {
    annotations = some (
        ("kubernetes.io/source-pod", pm.spec.source_pod_name)
        ∷ ("kubernetes.io/source-namespace", pm.metadata.namespace)
        ∷ ("kubernetes.io/source-container", c.name)
        ∷ (
          "kubernetes.io/source-node",
          if source.spec.node_name == "" then "unknown" else source.spec.node_name,
        )
        ∷ []);
  };
  spec = record source.spec {
    node_name = pm.spec.target_node;
    node_selector = none;
    affinity = none;
  };
  status = record { phase = not_running ""; pod_ip = "" };
}

module _ (K : Kube) where
  open K use {State}

  -- `updateStatus`
  unfoldable pub update_status :
      PodMigration → (PodMigration → PodMigration) → State → Option GoError × State
  update_status pm mutate =
      K.retry_on_conflict (
        get_modify_write K pod_migration (key_of pm.metadata) mutate
          (K.update_status pod_migration))

  -- `handlePending`, up to the checkpoint that exists afterwards.
  unfoldable pub ensure_checkpoint : PodMigration → Flow Reply State PodCheckpoint
  unfolding new_checkpoint
  ensure_checkpoint pm = do
    found ← call (
        K.get pod_checkpoint
          (record { namespace = pm.metadata.namespace; name = checkpoint_name pm }))
    or_else found (λ e.
        if is_not_found e
        then (do
          owned ←
              or_else (K.set_controller_reference pm.metadata (new_checkpoint pm).metadata)
                (λ failure. exit (reply_of (some failure)))
          created ← call (K.create pod_checkpoint (with_metadata owned (new_checkpoint pm)))
          or_else created (λ failure. exit (reply_of (some failure))))
        else exit (reply_of (some e)))

  unfoldable pub handle_pending : PodMigration → Flow Reply State Reply
  unfolding ensure_checkpoint update_status
  handle_pending pm = do
    cp ← ensure_checkpoint pm
    failure ← call (update_status pm (to_checkpointing cp.metadata.name))
    check (λ _. false) failure
    exit (requeue_in (seconds 2))

  unfoldable pub handle_checkpointing : PodMigration → Flow Reply State Reply
  unfolding update_status
  handle_checkpointing pm = do
    found ← call (
        K.get pod_checkpoint
          (record { namespace = pm.metadata.namespace; name = pm.status.bound_checkpoint_name }))
    cp ← or_else found (λ e. exit (reply_of (some e)))
    if cp.status.ready_to_restore
        then (do failure ← call (update_status pm to_restoring); exit (reply_of failure))
        else exit (requeue_in (seconds 2))

  -- `handleRestoring`, from the containers of the source pod.
  unfoldable pub restore : PodMigration → Pod → List Container → Flow Reply State Reply
  unfolding update_status
  restore pm source [] = do
    call (update_status pm (to_failed "source Pod has no containers"))
    exit finished
  restore pm source (c ∷ cs) = do
    created ← call (K.create pod (restored_pod pm source c))
    elim created [
      | ok _ ↦ proceed tt
      | err e ↦ if is_already_exists e then proceed tt else exit (reply_of (some e))
    ]
    failure ← call (
        update_status pm (
          to_succeeded (restored_name pm) (
            "Created restored Pod "
            <> K.quote (restored_name pm)
            <> " on node "
            <> K.quote pm.spec.target_node)))
    exit (reply_of failure)

  unfoldable pub handle_restoring : PodMigration → Flow Reply State Reply
  handle_restoring pm = do
    found ←
        call
          (K.get pod (record { namespace = pm.metadata.namespace; name = pm.spec.source_pod_name }))
    source ← or_else found (λ e. exit (reply_of (some e)))
    restore pm source source.spec.containers

  -- The `switch` on the phase.
  unfoldable pub dispatch : PodMigrationPhase → PodMigration → Flow Reply State Reply
  unfolding handle_pending handle_checkpointing handle_restoring
  dispatch unset pm = handle_pending pm
  dispatch pending pm = handle_pending pm
  dispatch checkpointing pm = handle_checkpointing pm
  dispatch restoring pm = handle_restoring pm
  dispatch succeeded pm = exit finished
  dispatch failed pm = exit finished
  dispatch (unknown _) pm = exit finished

  body : ObjectKey → Flow Reply State Reply
  unfolding dispatch
  body req = do
    found ← call (K.get pod_migration req)
    pm ← or_else found (λ e. exit (reply_of (K.ignore_not_found e)))
    dispatch pm.status.phase pm

  -- `Reconcile`
  unfoldable pub reconcile : ObjectKey → State → Reply × State
  unfolding body
  reconcile req s = answer (body req s)
