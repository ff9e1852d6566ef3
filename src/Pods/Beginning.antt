-- ===== src/Pods/Beginning.antt =====
-- The run of `PodCheckpointReconciler.Reconcile` that creates the members.
use pod_checkpoint_controlle.Prelude.{
  ℕ, Bool, String, ◌≡◌, sym, ap, subst, ◌∙◌, true, false, some, List, ◌∷◌, arith,
}
use pod_checkpoint_controlle.Prelude.All.{All, All-map}
use pod_checkpoint_controlle.Go.Errors.{seconds}
use pod_checkpoint_controlle.Go.Flow.{Reply, next, answer, requeue_in}
use pod_checkpoint_controlle.Api.Meta.{ObjectKey, key_of, Container, Pod}
use pod_checkpoint_controlle.Api.Pods.{PodCheckpoint, PodCheckpointContent}
use pod_checkpoint_controlle.Api.Objects.{
  pod_checkpoint, pod_checkpoint_content, pod, pod_migration,
}
use pod_checkpoint_controlle.Kube.Client.{Kube}
use pod_checkpoint_controlle.Kube.Table.{Table, find, stamped, find-store}
use pod_checkpoint_controlle.Kube.Laws.{Serves}
use pod_checkpoint_controlle.Containers.{cluster_key}
use pod_checkpoint_controlle.Pods.{content_name}
use pod_checkpoint_controlle.Pods.Members.{ensure_members, aggregate}
use pod_checkpoint_controlle.Pods.Aggregate.{aggregate_lem}
use pod_checkpoint_controlle.Pods.Status.{conclude}
use pod_checkpoint_controlle.Pods.Unready.{unready, unready_content, conclude-unready}
use pod_checkpoint_controlle.Pods.Creation.{IsPrepared}
use pod_checkpoint_controlle.Pods.Frame.{Distinct}
use pod_checkpoint_controlle.Pods.Fresh.{
  IsFresh, IsAsked, IsFresh-IsAsked, IsAbsent, ensure_members-IsFresh, fresh_unready,
}
use pod_checkpoint_controlle.Pods.Passage.{rest_of_run, after_content, same_table, reaches_members}
use pod_checkpoint_controlle.Pods.Reconcile.{reconcile}

module _ (K : Kube) (L : Serves K) (pc : PodCheckpoint) (p : Pod) (pcc : PodCheckpointContent)
    (c : Container) (cs : List Container) (contained : p.spec.containers ≡ c ∷ cs) where
  -- The run comes back in eight seconds; each container has its fresh member, which asks for it; the checkpoint and its
  -- content say that they are not ready; and the migrations, the pods, and the other members are as they were.
  pub record IsBegun (t : Table) (q : Reply × K.State) : Type 0 where
    pub later : q.0 ≡ requeue_in (seconds 8)
    pub message : String
    pub version : ℕ
    pub checkpoint :
        find (L.table q.1) pod_checkpoint (key_of pc.metadata)
        ≡ some (stamped pod_checkpoint version (unready message pc))
    pub content_version : ℕ
    pub content :
        find (L.table q.1) pod_checkpoint_content (key_of pcc.metadata)
        ≡ some (stamped pod_checkpoint_content content_version (unready_content message pcc))
    pub members : All (IsFresh pc p (L.table q.1)) (c ∷ cs)
    pub asked : All (IsAsked pc p (L.table q.1)) (c ∷ cs)
    pub migrations :
        (key : ObjectKey) → find (L.table q.1) pod_migration key ≡ find t pod_migration key
    pub pods : (key : ObjectKey) → find (L.table q.1) pod key ≡ find t pod key

  module _ (s : K.State) (stored : find (L.table s) pod_checkpoint (key_of pc.metadata) ≡ some pc)
      (placed : key_of pcc.metadata ≡ cluster_key (content_name pc))
      (held : find (L.table s) pod_checkpoint_content (key_of pcc.metadata) ≡ some pcc)
      (distinct : Distinct (c ∷ cs)) (absent : All (IsAbsent pc (L.table s)) (c ∷ cs)) where
    abbrev after_members : K.State
    after_members = (ensure_members K pc p (c ∷ cs) s).1

    abbrev judged : K.State
    judged = (aggregate K pc (c ∷ cs) true after_members).1

    abbrev verdict : Bool × String
    verdict = (aggregate K pc (c ∷ cs) true after_members).0

    run :
        (ensure_members K pc p (c ∷ cs) s).0 ≡ next tt
        → verdict.0 ≡ false
        → answer (rest_of_run K L pc p pcc s) ≡ answer (conclude K pc pcc false verdict.1 judged)
    run goes_on all = ground (arith, goes_on, all, contained)

    rest-IsBegun : IsBegun (L.table s) (answer (rest_of_run K L pc p pcc s))
    rest-IsBegun =
        let (goes_on, fresh, spares) = ensure_members-IsFresh K L pc p (c ∷ cs) s distinct absent in
        let (found, same) = aggregate_lem K L pc (c ∷ cs) true after_members in
        let none_ready : verdict.0 ≡ false =
          ap (λ v. v.0) found ∙ fresh_unready K L pc p c cs fresh.0 in
        let (v, w, later, table) =
          conclude-unready K L pc pcc judged
            (rw same (spares.checkpoints (key_of pc.metadata) ∙ stored)) placed
            (rw same (spares.pod_contents (key_of pcc.metadata) ∙ held)) verdict.1 in
        let e = run goes_on none_ready in
        let members : All (IsFresh pc p (L.table (answer (rest_of_run K L pc p pcc s)).1))
            (c ∷ cs) =
          All-map (IsFresh pc p (L.table after_members))
            (IsFresh pc p (L.table (answer (rest_of_run K L pc p pcc s)).1))
            (λ d fresh_d. record {
              version = fresh_d.version;
              uid = fresh_d.uid;
              stored = rw (e, table, same) fresh_d.stored;
              absent = rw (e, table, same) fresh_d.absent;
            })
            (c ∷ cs) fresh in
        record {
          later = rw e later;
          message = verdict.1;
          version = v;
          checkpoint =
              rw (e, table)
                (find-store pod_checkpoint (key_of pc.metadata)
                  (some (stamped pod_checkpoint v (unready verdict.1 pc))) (L.table judged));
          content_version = w;
          content =
              rw (e, table)
                (find-store pod_checkpoint_content (key_of pcc.metadata)
                  (some (stamped pod_checkpoint_content w (unready_content verdict.1 pcc)))
                  (L.table judged));
          members = members;
          asked =
              All-map (IsFresh pc p (L.table (answer (rest_of_run K L pc p pcc s)).1))
                (IsAsked pc p (L.table (answer (rest_of_run K L pc p pcc s)).1))
                (IsFresh-IsAsked pc p (L.table (answer (rest_of_run K L pc p pcc s)).1)) (c ∷ cs)
                members;
          migrations = λ key. rw (e, table, same) (spares.migrations key);
          pods = λ key. rw (e, table, same) (spares.pods key);
        }

  module _ (s : K.State) (v : IsPrepared K (L.table s) pc p)
      (placed : key_of pcc.metadata ≡ cluster_key (content_name pc))
      (held : find (L.table s) pod_checkpoint_content (key_of pcc.metadata) ≡ some pcc)
      (distinct : Distinct (c ∷ cs)) (absent : All (IsAbsent pc (L.table s)) (c ∷ cs)) where
    abbrev before : K.State
    before = after_content K L pc p pcc s v placed held

    same_before : L.table before ≡ L.table s
    same_before = same_table K L pc p pcc s v placed held

    -- Of a stored PodCheckpoint that is not being deleted, has its finalizer, is not bound, does not
    -- ask for existing content and names a pod that is stored, and whose content is stored, with a
    -- server that serves the run alone: if the pod has one or more containers, of different names,
    -- and for none of them a ContainerCheckpoint or the content of one exists, then each is given
    -- a ContainerCheckpoint, named by the checkpoint and the container, that names the pod and the
    -- container, has the checkpoint's deletion policy and its target node, if it names one, as an
    -- annotation, and is neither bound nor ready; the checkpoint and its content are marked as not ready,
    -- no migration and no pod is changed, and the reconciler comes back in eight seconds.
    pub reconcile-makes_members : IsBegun (L.table s) (reconcile K (key_of pc.metadata) s)
    reconcile-makes_members =
        subst (λ t. IsBegun t (reconcile K (key_of pc.metadata) s)) same_before
          (rw (reaches_members K L pc p pcc s v placed held) (
            rest-IsBegun before (rw same_before v.stored) placed (rw same_before held) distinct
              (subst (λ t. All (IsAbsent pc t) (c ∷ cs)) (sym same_before) absent)))
