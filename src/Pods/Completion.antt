-- ===== src/Pods/Completion.antt =====
-- The run of `PodCheckpointReconciler.Reconcile` that finds every container's checkpoint ready.
use pod_checkpoint_controlle.Prelude.{
  ◌≡◌, refl, ap, subst, ◌∙◌, Bool, true, ◌&&◌, some, List, [], ◌∷◌, arith,
}
use pod_checkpoint_controlle.Go.Flow.{Reply, finished, answer}
use pod_checkpoint_controlle.Api.Meta.{ObjectKey, key_of, Container, Pod}
use pod_checkpoint_controlle.Api.Pods.{PodCheckpoint, PodCheckpointContent}
use pod_checkpoint_controlle.Api.Objects.{
  pod_checkpoint, pod_checkpoint_content, pod, pod_migration,
}
use pod_checkpoint_controlle.Kube.Client.{Kube}
use pod_checkpoint_controlle.Kube.Table.{Table, find, stamped, find-store}
use pod_checkpoint_controlle.Kube.Laws.{Serves}
use pod_checkpoint_controlle.Containers.{cluster_key}
use pod_checkpoint_controlle.Pods.{content_name}
use pod_checkpoint_controlle.Pods.Members.{member_key, ensure_members, aggregate}
use pod_checkpoint_controlle.Pods.Aggregate.{all_restorable, aggregate_lem}
use pod_checkpoint_controlle.Pods.Status.{conclude}
use pod_checkpoint_controlle.Pods.Conclusion.{conclude-ready}
use pod_checkpoint_controlle.Pods.Creation.{IsPrepared}
use pod_checkpoint_controlle.Pods.Growth.{Grows, ensure_members_lem}
use pod_checkpoint_controlle.Pods.Passage.{rest_of_run, after_content, same_table, reaches_members}
use pod_checkpoint_controlle.Pods.Reconcile.{reconcile}

and_intro : (a b : Bool) → a ≡ true → b ≡ true → (a && b) ≡ true
and_intro a b h k = ground (arith, h, k)

and_left : (a b : Bool) → (a && b) ≡ true → a ≡ true
and_left a b h = ground (arith, h)

and_right : (a b : Bool) → (a && b) ≡ true → b ≡ true
and_right a b h = ground (arith, h)

-- Step 8 keeps what step 9 looks for.
pub all_restorable-Grows :
    {t u : Table}
    → Grows t u
    → (pc : PodCheckpoint) (cs : List Container) → all_restorable t pc cs ≡ true
    → all_restorable u pc cs ≡ true
all_restorable-Grows g pc [] h = refl
all_restorable-Grows g pc (c ∷ cs) h =
    and_intro _ _ (g.restorable (member_key pc c) (and_left _ _ h))
      (all_restorable-Grows g pc cs (and_right _ _ h))

module _ (K : Kube) (L : Serves K) (pc : PodCheckpoint) (p : Pod) where
  -- The run from a table ends; the checkpoint is stored as ready, and bound; the migrations and the
  -- pods are left alone.
  abbrev pub IsComplete : Table → Reply × K.State → Type 0
  IsComplete t q =
      (pc' : PodCheckpoint) × (find (L.table q.1) pod_checkpoint (key_of pc.metadata) ≡ some pc')
      × (pc'.status.ready_to_restore ≡ true)
      × (pc'.status.error_message ≡ "")
      × (pc'.status.bound_pod_checkpoint_content_name ≡ some (content_name pc))
      × (q.0 ≡ finished)
      × ((key : ObjectKey) → find (L.table q.1) pod_migration key ≡ find t pod_migration key)
      × ((key : ObjectKey) → find (L.table q.1) pod key ≡ find t pod key)

  module _ (pcc : PodCheckpointContent) (s : K.State)
      (stored : find (L.table s) pod_checkpoint (key_of pc.metadata) ≡ some pc)
      (placed : key_of pcc.metadata ≡ cluster_key (content_name pc))
      (held : find (L.table s) pod_checkpoint_content (key_of pcc.metadata) ≡ some pcc)
      (ready : all_restorable (L.table s) pc p.spec.containers ≡ true) where
    abbrev after_members : K.State
    after_members = (ensure_members K pc p p.spec.containers s).1

    abbrev judged : K.State
    judged = (aggregate K pc p.spec.containers true after_members).1

    rest-IsComplete : IsComplete (L.table s) (answer (rest_of_run K L pc p pcc s))
    rest-IsComplete =
        let (goes_on, _, grows) = ensure_members_lem K L pc p p.spec.containers s in
        let (verdict, same) = aggregate_lem K L pc p.spec.containers true after_members in
        let all : (aggregate K pc p.spec.containers true after_members).0.0 ≡ true =
          ap (λ v. v.0) verdict ∙ all_restorable-Grows grows pc p.spec.containers ready in
        let done =
          conclude-ready K L pc pcc judged
            (rw same (grows.checkpoints (key_of pc.metadata) ∙ stored)) placed
            (rw same (grows.contents (key_of pcc.metadata) ∙ held))
            (aggregate K pc p.spec.containers true after_members).0.1 in
        let run : answer (rest_of_run K L pc p pcc s)
            ≡ answer (
                conclude K pc pcc true (aggregate K pc p.spec.containers true after_members).0.1
                  judged) =
          ground (arith, goes_on, all) in
        (
          stamped pod_checkpoint done.1 (record pc {
            status = record {
              bound_pod_checkpoint_content_name = some (content_name pc);
              checkpoint_time = some done.0;
              ready_to_restore = true;
              error_message = "";
            };
          }),
          rw (run, done.4) (find-store pod_checkpoint (key_of pc.metadata) _ (L.table judged)),
          refl,
          refl,
          refl,
          rw run done.3,
          (λ key. rw (run, done.4, same) (grows.migrations key)),
          λ key. rw (run, done.4, same) (grows.pods key),
        )

  module _ (pcc : PodCheckpointContent) (s : K.State) (v : IsPrepared K (L.table s) pc p)
      (placed : key_of pcc.metadata ≡ cluster_key (content_name pc))
      (held : find (L.table s) pod_checkpoint_content (key_of pcc.metadata) ≡ some pcc)
      (ready : all_restorable (L.table s) pc p.spec.containers ≡ true) where
    -- Of a stored PodCheckpoint that is not being deleted, has its finalizer, is not bound, does
    -- not ask for existing content and names a pod that is stored, and whose content is stored, with a server that serves the run alone: if
    -- every container of the pod has a ContainerCheckpoint that is ready without an error, the
    -- checkpoint is stored afterwards as ready, with no error, bound to its content, no requeue is
    -- asked for, and no migration and no pod is changed.
    pub reconcile-completes : IsComplete (L.table s) (reconcile K (key_of pc.metadata) s)
    reconcile-completes =
        subst (λ t. IsComplete t (reconcile K (key_of pc.metadata) s))
          (same_table K L pc p pcc s v placed held)
          (rw (reaches_members K L pc p pcc s v placed held) (
            rest-IsComplete pcc (after_content K L pc p pcc s v placed held)
              (rw (same_table K L pc p pcc s v placed held) v.stored) placed
              (rw (same_table K L pc p pcc s v placed held) held)
              (rw (same_table K L pc p pcc s v placed held) ready)))
