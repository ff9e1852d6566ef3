-- ===== src/Pods/Members.antt =====
-- The steps 8 and 9 of `PodCheckpointReconciler.Reconcile`: a ContainerCheckpoint for each
-- container of the pod, and what their statuses add up to.
use pod_checkpoint_controlle.Prelude.{
  String, ◌<>◌, ◌==◌, Bool, false, not, ◌||◌, Option, none, some, List, [], ◌∷◌, if◌then◌else◌,
}
use pod_checkpoint_controlle.Prelude.Dict.{GoMap, insert}
use pod_checkpoint_controlle.Go.Errors.{Result, ok, err, is_not_found}
use pod_checkpoint_controlle.Go.Flow.{Reply, Flow, reply_of, proceed, exit, ◌>>=◌, ◌>>◌, call}
use pod_checkpoint_controlle.Api.Meta.{ObjectKey, named, Container, Pod}
use pod_checkpoint_controlle.Api.Containers.{ContainerCheckpoint}
use pod_checkpoint_controlle.Api.Pods.{PodCheckpoint}
use pod_checkpoint_controlle.Api.Objects.{container_checkpoint}
use pod_checkpoint_controlle.Kube.Client.{Kube}
use pod_checkpoint_controlle.Containers.{target_node}
use pod_checkpoint_controlle.Pods.{target_of, failed_with, update_status}

-- The name of the ContainerCheckpoint for a container, from the name of the PodCheckpoint.
abbrev pub member_name : String → String → String
member_name pc_name container_name = pc_name <> "-" <> container_name

abbrev pub member_key : PodCheckpoint → Container → ObjectKey
member_key pc c = record {
  namespace = pc.metadata.namespace;
  name = member_name pc.metadata.name c.name;
}

-- Step 8: the object that `CreateOrUpdate` starts from.
abbrev pub member_object : PodCheckpoint → Container → ContainerCheckpoint
member_object pc c = record {
  metadata = named pc.metadata.namespace (member_name pc.metadata.name c.name);
  spec = record {
    source = record {
      pod_name = none;
      container_name = none;
      container_checkpoint_content_name = none;
    };
    deletion_policy = "";
  };
  status = record {
    bound_container_checkpoint_content_name = none;
    ready_to_restore = false;
    error_message = "";
    checkpoint_time = none;
  };
}

abbrev pub or_nil : Option String → String → Option String
or_nil none v = some v
or_nil (some w) v = some w

abbrev pub annotate : String → GoMap → GoMap
annotate target none = some (if not (target == "") then insert target_node target [] else [])
annotate target (some m) = some (if not (target == "") then insert target_node target m else m)

-- Step 8: the mutate function. It fills in what is not set yet, and sets the target node.
unfoldable pub fill_in : PodCheckpoint → Pod → Container → ContainerCheckpoint → ContainerCheckpoint
fill_in pc p c cc = record cc {
  metadata = record cc.metadata { annotations = annotate (target_of pc) cc.metadata.annotations };
  spec = record cc.spec {
    source = record cc.spec.source {
      pod_name = or_nil cc.spec.source.pod_name p.metadata.name;
      container_name = or_nil cc.spec.source.container_name c.name;
    };
    deletion_policy =
        if cc.spec.deletion_policy == "" then pc.spec.deletion_policy else cc.spec.deletion_policy;
  };
}

-- Step 9: what one ContainerCheckpoint says. A missing one is passed over, any other trouble ends
-- the loop with its message.
pub data Verdict : Type 0 where
  ready absent : Verdict
  broken : String → Verdict

unfoldable pub judge : Result ContainerCheckpoint → Verdict
judge (err e) = if is_not_found e then absent else broken e.text
judge (ok cc) =
    if not cc.status.ready_to_restore || not (cc.status.error_message == "")
    then broken cc.status.error_message
    else ready

module _ (K : Kube) (pc : PodCheckpoint) where
  open K use {State}

  -- Step 8.
  unfoldable pub ensure_members : Pod → List Container → Flow Reply State (Unit {0})
  unfolding fill_in update_status
  ensure_members p [] s = proceed tt s
  ensure_members p (c ∷ cs) s =
      let rest = ensure_members p cs in
      (do
        failure ←
            call (K.create_or_update container_checkpoint (member_object pc c) (fill_in pc p c))
        elim failure [
          | none ↦ rest
          | some e ↦ do call (update_status K pc (failed_with e.text)); exit (reply_of (some e))
        ])
        s

  -- Step 9, from the value of `allReady` so far: `allReady` and `aggErr`.
  unfoldable pub aggregate : List Container → Bool → State → (Bool × String) × State
  unfolding judge
  aggregate [] all_ready s = ((all_ready, ""), s)
  aggregate (c ∷ cs) all_ready s =
      let (r, s') = K.get container_checkpoint (member_key pc c) s in
      elim (judge r) [
        | ready ↦ aggregate cs all_ready s'
        | absent ↦ aggregate cs false s'
        | broken message ↦ ((false, message), s')
      ]
