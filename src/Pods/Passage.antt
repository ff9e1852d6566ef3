-- ===== src/Pods/Passage.antt =====
-- The steps 1 to 7 of `PodCheckpointReconciler.Reconcile`, when nothing stops them.
use pod_checkpoint_controlle.Prelude.{◌≡◌, refl, true, some, arith}
use pod_checkpoint_controlle.Go.Flow.{Reply, Flow, next, ◌>>=◌, ◌>>◌, call, answer}
use pod_checkpoint_controlle.Api.Meta.{ObjectKey, key_of, Pod}
use pod_checkpoint_controlle.Api.Pods.{PodCheckpoint, PodCheckpointContent}
use pod_checkpoint_controlle.Api.Objects.{pod_checkpoint, pod_checkpoint_content, pod}
use pod_checkpoint_controlle.Kube.Client.{Kube}
use pod_checkpoint_controlle.Kube.Table.{find}
use pod_checkpoint_controlle.Kube.Laws.{Serves}
use pod_checkpoint_controlle.Kube.Sequential.{get-found}
use pod_checkpoint_controlle.Containers.{cluster_key}
use pod_checkpoint_controlle.Pods.{
  content_name, fetch, on_deletion, ensure_finalizer, bind_existing, pod_name, fetch_pod,
  skip_bound, get_or_create_content,
}
use pod_checkpoint_controlle.Pods.Members.{ensure_members, aggregate}
use pod_checkpoint_controlle.Pods.Status.{conclude}
use pod_checkpoint_controlle.Pods.Creation.{IsPrepared}
use pod_checkpoint_controlle.Pods.Reconcile.{reconcile}

module _ (K : Kube) (L : Serves K) (pc : PodCheckpoint) (p : Pod) where
  -- The steps 8 to 10.
  abbrev pub rest_of_run : PodCheckpointContent → Flow Reply K.State Reply
  rest_of_run pcc = do
    ensure_members K pc p p.spec.containers
    verdict ← call (aggregate K pc p.spec.containers true)
    conclude K pc pcc verdict.0 verdict.1

  module _ (pcc : PodCheckpointContent) (s : K.State) (v : IsPrepared K (L.table s) pc p)
      (placed : key_of pcc.metadata ≡ cluster_key (content_name pc))
      (held : find (L.table s) pod_checkpoint_content (key_of pcc.metadata) ≡ some pcc) where
    abbrev pub after_pc : K.State
    after_pc = (K.get pod_checkpoint (key_of pc.metadata) s).1

    abbrev pub after_pod : K.State
    after_pod =
        (K.get pod (record { namespace = pc.metadata.namespace; name = v.pod_name }) after_pc).1

    abbrev pub after_content : K.State
    after_content = (K.get pod_checkpoint_content (cluster_key (content_name pc)) after_pod).1

    pub same_table : L.table after_content ≡ L.table s
    same_table = rw (L.get-table, L.get-table, L.get-table) refl

    abbrev req : ObjectKey
    req = key_of pc.metadata

    fetched : fetch K req s ≡ (next pc, after_pc)
    unfolding fetch
    fetched = rw (get-found K L pod_checkpoint _ pc s v.stored, fetch) refl

    alive : (u : K.State) → on_deletion K req pc u ≡ (next tt, u)
    unfolding on_deletion
    alive u = ground (arith, v.live)

    protected : (u : K.State) → ensure_finalizer K req pc u ≡ (next tt, u)
    unfolding ensure_finalizer
    protected u = ground (arith, v.guarded)

    not_static : (u : K.State) → bind_existing K pc u ≡ (next tt, u)
    unfolding bind_existing
    not_static u = ground (arith, v.dynamic)

    named_pod : (u : K.State) → pod_name K pc u ≡ (next v.pod_name, u)
    unfolding pod_name
    named_pod u = ground (arith, v.pod_named)

    fetched_pod : fetch_pod K pc v.pod_name after_pc ≡ (next p, after_pod)
    unfolding fetch_pod
    fetched_pod =
        rw
          (
            get-found K L pod (record { namespace = pc.metadata.namespace; name = v.pod_name }) p
                after_pc (rw L.get-table v.pod_stored),
            fetch_pod,
          )
          refl

    not_bound : (u : K.State) → skip_bound K pc u ≡ (next tt, u)
    unfolding skip_bound
    not_bound u = ground (arith, v.unbound)

    taken : get_or_create_content K pc v.pod_name p after_pod ≡ (next pcc, after_content)
    unfolding get_or_create_content
    taken =
        rw
          (
            get-found K L pod_checkpoint_content (cluster_key (content_name pc)) pcc after_pod
                (rw (L.get-table, L.get-table, ← placed) held),
            get_or_create_content,
          )
          refl

    -- Of a prepared checkpoint with its content the steps 1 to 7 pass, and read only.
    pub reaches_members : reconcile K req s ≡ answer (rest_of_run pcc after_content)
    unfolding reconcile
    reaches_members =
        rw
          (
            fetched, alive, protected, not_static, named_pod, fetched_pod, not_bound, taken,
            reconcile,
          )
          refl
