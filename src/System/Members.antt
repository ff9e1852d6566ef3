-- ===== src/System/Members.antt =====
-- A member of a PodCheckpoint, the ContainerCheckpoint of one of its containers, from its creation to
-- its end: the controller of internal/controller/containercheckpoint_controller.go and the sidecar of
-- the pod's node, in turn.
pub mod Runs
use pod_checkpoint_controlle.Prelude.{
  ℕ, String, ◌==◌, ◌≡◌, refl, sym, ap, ◌∙◌, subst, true, false, Option, none, some, List, [], arith,
}
use pod_checkpoint_controlle.Prelude.Dict.{index}
use pod_checkpoint_controlle.Api.Meta.{ObjectKey, key_of, Container, Pod}
use pod_checkpoint_controlle.Api.Containers.{ContainerCheckpoint, ContainerCheckpointContent}
use pod_checkpoint_controlle.Api.Pods.{PodCheckpoint}
use pod_checkpoint_controlle.Api.Objects.{container_checkpoint, container_checkpoint_content, pod}
use pod_checkpoint_controlle.Kube.Client.{Kube}
use pod_checkpoint_controlle.Kube.Table.{Table, find, store, stamped, find-store, store-store}
use pod_checkpoint_controlle.Kube.Laws.{Serves, admitted}
use pod_checkpoint_controlle.Containers.{
  cluster_key, storage_location, new_content, has_container, reconcile as reconcile_checkpoint,
}
use pod_checkpoint_controlle.Containers.Validated.{IsValidated}
use pod_checkpoint_controlle.Containers.Guarding.{guarded, reconcile-guards}
use pod_checkpoint_controlle.Pods.{target_of}
use pod_checkpoint_controlle.Pods.Members.{member_name, member_key, member_object, fill_in}
use pod_checkpoint_controlle.Pods.Fresh.{content_key, fresh, IsFresh}
use pod_checkpoint_controlle.Sidecar.Host.{Host}
use pod_checkpoint_controlle.Sidecar.Kubelet.Polls.{BacksOff}
use pod_checkpoint_controlle.Sidecar.Manager.{CheckpointReconciler}
use pod_checkpoint_controlle.Sidecar.Reconciler.{target_of_location, reconcile as reconcile_content}
use pod_checkpoint_controlle.Sidecar.Location.{target_of_location-fill_in}
use pod_checkpoint_controlle.Sidecar.Steps.{IsWorking}
use pod_checkpoint_controlle.System.Checkpoints.{checkpoint-completes}

module _ (K : Kube) (H : Host K.State) (r : CheckpointReconciler) (pc : PodCheckpoint) where
  -- The four runs: the controller adds its finalizer, and asks for the content; the sidecar makes
  -- the checkpoint; and the controller takes over that it is ready.
  abbrev pub run_member : Container → K.State → K.State
  run_member c s =
      let s₁ : K.State = (reconcile_checkpoint K (member_key pc c) s).1 in
      let s₂ : K.State = (reconcile_checkpoint K (member_key pc c) s₁).1 in
      let s₃ : K.State = (reconcile_content K H r (content_key pc c) s₂).1 in
      (reconcile_checkpoint K (member_key pc c) s₃).1

module _ (K : Kube) (L : Serves K) (H : Host K.State) (B : BacksOff H) (r : CheckpointReconciler)
    (f : String) (fs : List String) (pc : PodCheckpoint) (p : Pod)
    (filled : (target_of pc == "") ≡ false) (W : IsWorking K L H B (target_of pc) f fs)
    (here : (p.spec.node_name == r.node_name) ≡ true) where
  module _ (c : Container) (contained : has_container c.name p.spec.containers ≡ true) (s : K.State)
      (there : find
          (L.table s)
          pod
          (record { namespace = pc.metadata.namespace; name = p.metadata.name })
        ≡ some p)
      (v : IsFresh pc p (L.table s) c) where
    abbrev new : ContainerCheckpoint
    new = fresh pc p v.version v.uid c

    abbrev first : K.State
    first = (reconcile_checkpoint K (member_key pc c) s).1

    first_run :
        (w : ℕ) × (L.table first
          ≡ store container_checkpoint
              (member_key pc c)
              (some (stamped container_checkpoint w (guarded K new)))
              (L.table s))
    unfolding fill_in
    first_run =
        let q = reconcile-guards K L new s v.stored refl (L.contains_finalizer-nil _) in (q.0, q.2)

    abbrev guarded_new : ContainerCheckpoint
    guarded_new = stamped container_checkpoint first_run.0 (guarded K new)

    valid : IsValidated K (L.table first) guarded_new p
    unfolding fill_in
    valid = record {
      stored =
          rw first_run.1
            (find-store container_checkpoint (member_key pc c) (some guarded_new) (L.table s));
      live = refl;
      guarded = L.contains_finalizer-add_finalizer [] _;
      dynamic = refl;
      pod_name = p.metadata.name;
      pod_named = refl;
      container_name = c.name;
      container_named = refl;
      pod_stored = rw first_run.1 there;
      contained = contained;
    }

    target : target_of_location (storage_location guarded_new) ≡ target_of pc
    unfolding storage_location index new_content
    target = target_of_location-fill_in pc p c (member_object pc c) filled

    -- The member is stored as ready without an error, its content is stored, and nothing else has
    -- changed.
    pub run_member_lem :
        (m : ContainerCheckpoint) × (content : ContainerCheckpointContent) × (L.table
            (run_member K H r pc c s)
          ≡ store container_checkpoint
              (member_key pc c)
              (some m)
              (store container_checkpoint_content (content_key pc c) (some content) (L.table s)))
        × (m.status.ready_to_restore ≡ true)
        × (m.status.error_message ≡ "")
    unfolding fill_in
    run_member_lem =
        let working : IsWorking K L H B (target_of_location (storage_location guarded_new)) f fs =
          rw target W in
        let (m, content, table, ready, fine, _, _) =
          checkpoint-completes K L H B r f fs guarded_new p working refl here first valid
            (rw first_run.1 v.absent) in
        (
          m,
          content,
          table
              ∙ rw first_run.1 (
                  store-store container_checkpoint (member_key pc c) (some guarded_new) (some m) (
                    store container_checkpoint_content (content_key pc c) (some content)
                      (L.table s))),
          ready,
          fine,
        )
