-- ===== src/Pods/Creation.antt =====
-- What `PodCheckpointReconciler.Reconcile` does for a checkpoint whose content is missing.
use pod_checkpoint_controlle.Prelude.{ℕ, String, ◌≡◌, refl, true, none, some, arith}
use pod_checkpoint_controlle.Go.Flow.{requeue_in}
use pod_checkpoint_controlle.Go.Errors.{seconds}
use pod_checkpoint_controlle.Api.Meta.{key_of, Pod}
use pod_checkpoint_controlle.Api.Pods.{PodCheckpoint}
use pod_checkpoint_controlle.Api.Objects.{pod_checkpoint, pod_checkpoint_content, pod}
use pod_checkpoint_controlle.Kube.Client.{Kube}
use pod_checkpoint_controlle.Kube.Table.{Table, find, store, stamped}
use pod_checkpoint_controlle.Kube.Laws.{Serves, admitted}
use pod_checkpoint_controlle.Kube.Sequential.{get-found, get-missing}
use pod_checkpoint_controlle.Containers.{cluster_key, non_empty}
use pod_checkpoint_controlle.Pods.{pc_finalizer, content_name, new_content}
use pod_checkpoint_controlle.Pods.Reconcile.{reconcile}

-- A PodCheckpoint that is stored, not being deleted, guarded by its finalizer, not bound, and asks
-- for a pod that is there.
pub record IsPrepared (K : Kube) (t : Table) (pc : PodCheckpoint) (p : Pod) : Type 0 where
  pub stored : find t pod_checkpoint (key_of pc.metadata) ≡ some pc
  pub live : pc.metadata.deletion_timestamp ≡ none
  pub guarded : K.contains_finalizer pc.metadata.finalizers pc_finalizer ≡ true
  pub dynamic : non_empty pc.spec.source.pod_checkpoint_content_name ≡ none
  pub pod_name : String
  pub pod_named : non_empty pc.spec.source.pod_name ≡ some pod_name
  pub pod_stored :
      find t pod (record { namespace = pc.metadata.namespace; name = pod_name }) ≡ some p
  pub unbound : pc.status.bound_pod_checkpoint_content_name ≡ none

module _ (K : Kube) (L : Serves K) (pc : PodCheckpoint) (p : Pod) (s : K.State)
    (v : IsPrepared K (L.table s) pc p) where
  abbrev after_pc : K.State
  after_pc = (K.get pod_checkpoint (key_of pc.metadata) s).1

  abbrev after_pod : K.State
  after_pod =
      (K.get pod (record { namespace = pc.metadata.namespace; name = v.pod_name }) after_pc).1

  table-after_pod : L.table after_pod ≡ L.table s
  table-after_pod = rw (L.get-table, L.get-table) refl

  -- Of a stored PodCheckpoint that is not being deleted, has its finalizer, is not bound and names a
  -- pod that is stored, with a server that serves the run alone: if the content is missing, it is
  -- created, with the reference back to the checkpoint and the pod's identity; nothing else changes,
  -- no ContainerCheckpoint is touched, and the reconciler comes back in eight seconds.
  pub reconcile-prepares :
      find (L.table s) pod_checkpoint_content (cluster_key (content_name pc)) ≡ none
      → (w : ℕ) × (uid : String) × ((reconcile K (key_of pc.metadata) s).0 ≡ requeue_in (seconds 8))
        × (L.table (reconcile K (key_of pc.metadata) s).1
            ≡ store pod_checkpoint_content
                (cluster_key (content_name pc))
                (some (
                  stamped pod_checkpoint_content w
                    (admitted pod_checkpoint_content uid (new_content pc v.pod_name p))))
                (L.table s))
  unfolding reconcile
  reconcile-prepares absent =
      let key = cluster_key (content_name pc) in
      let found = get-found K L pod_checkpoint _ pc s v.stored in
      let seen =
        get-found K L pod (record { namespace = pc.metadata.namespace; name = v.pod_name }) p
          after_pc (rw L.get-table v.pod_stored) in
      let lost = get-missing K L pod_checkpoint_content key after_pod (rw table-after_pod absent) in
      let asked : K.State = (K.get pod_checkpoint_content key after_pod).1 in
      let asked_table = L.get-table pod_checkpoint_content key after_pod in
      let reason = L.missing_reason pod_checkpoint_content key in
      let new = new_content pc v.pod_name p in
      let free : find (L.table asked) pod_checkpoint_content key ≡ none =
        rw (asked_table, table-after_pod) absent in
      let made = L.create-result pod_checkpoint_content new asked free in
      let kept = L.create-table pod_checkpoint_content new asked free in
      (
        L.fresh asked,
        L.fresh_uid asked,
        ground (
          arith, found, seen, lost, reason, made, v.live, v.guarded, v.dynamic, v.pod_named,
          v.unbound,
        ),
        ground (
          arith, found, seen, lost, reason, made, kept, asked_table, table-after_pod, v.live,
          v.guarded, v.dynamic, v.pod_named, v.unbound,
        ),
      )
