-- ===== src/Pods/Reconcile.antt =====
-- `PodCheckpointReconciler.Reconcile`, composed of its steps.
use pod_checkpoint_controlle.Prelude.{true}
use pod_checkpoint_controlle.Go.Flow.{Reply, Flow, ◌>>=◌, ◌>>◌, call, answer}
use pod_checkpoint_controlle.Api.Meta.{ObjectKey}
use pod_checkpoint_controlle.Kube.Client.{Kube}
use pod_checkpoint_controlle.Pods.{
  fetch, on_deletion, ensure_finalizer, bind_existing, pod_name, fetch_pod, skip_bound,
  get_or_create_content,
}
use pod_checkpoint_controlle.Pods.Members.{ensure_members, aggregate}
use pod_checkpoint_controlle.Pods.Status.{conclude}

module _ (K : Kube) where
  open K use {State}

  body : ObjectKey → Flow Reply State Reply
  unfolding fetch on_deletion ensure_finalizer bind_existing pod_name fetch_pod skip_bound
      get_or_create_content ensure_members aggregate conclude
  body req = do
    pc ← fetch K req
    on_deletion K req pc
    ensure_finalizer K req pc
    bind_existing K pc
    name ← pod_name K pc
    p ← fetch_pod K pc name
    skip_bound K pc
    pcc ← get_or_create_content K pc name p
    ensure_members K pc p p.spec.containers
    verdict ← call (aggregate K pc p.spec.containers true)
    conclude K pc pcc verdict.0 verdict.1

  -- `Reconcile`
  unfoldable pub reconcile : ObjectKey → State → Reply × State
  unfolding body
  reconcile req s = answer (body req s)
