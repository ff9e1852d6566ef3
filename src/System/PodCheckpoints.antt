-- ===== src/System/PodCheckpoints.antt =====
-- A pod checkpoint from its request to its end: the controllers of
-- internal/controller/podcheckpoint_controller.go and containercheckpoint_controller.go, and the
-- sidecar of the pod's node, in turn.
use pod_checkpoint_controlle.Prelude.{
  ℕ, String, ◌==◌, ◌≡◌, refl, sym, subst, ◌∙◌, true, false, none, some, List, ◌∷◌,
}
use pod_checkpoint_controlle.Prelude.All.{All, All-map}
use pod_checkpoint_controlle.Go.Flow.{finished}
use pod_checkpoint_controlle.Api.Meta.{ObjectKey, key_of, Container, Pod}
use pod_checkpoint_controlle.Api.Pods.{PodCheckpoint, PodCheckpointContent}
use pod_checkpoint_controlle.Api.Objects.{
  pod_checkpoint, pod_checkpoint_content, pod, pod_migration,
}
use pod_checkpoint_controlle.Kube.Client.{Kube}
use pod_checkpoint_controlle.Kube.Table.{Table, find, store, stamped, find-store}
use pod_checkpoint_controlle.Kube.Laws.{Serves, admitted}
use pod_checkpoint_controlle.Containers.{cluster_key, non_empty, has_container}
use pod_checkpoint_controlle.Pods.{pc_finalizer, content_name, new_content, target_of}
use pod_checkpoint_controlle.Pods.Aggregate.{all_restorable}
use pod_checkpoint_controlle.Pods.Creation.{IsPrepared, reconcile-prepares}
use pod_checkpoint_controlle.Pods.Guarding.{guarded, reconcile-guards}
use pod_checkpoint_controlle.Pods.Frame.{Distinct, Spares}
use pod_checkpoint_controlle.Pods.Fresh.{IsFresh, IsAbsent}
use pod_checkpoint_controlle.Pods.Unready.{unready, unready_content}
use pod_checkpoint_controlle.Pods.Beginning.{IsBegun, reconcile-makes_members}
use pod_checkpoint_controlle.Pods.Completion.{IsComplete, reconcile-completes}
use pod_checkpoint_controlle.Pods.Reconcile.{reconcile}
use pod_checkpoint_controlle.Sidecar.Host.{Host}
use pod_checkpoint_controlle.Sidecar.Kubelet.Polls.{BacksOff}
use pod_checkpoint_controlle.Sidecar.Manager.{CheckpointReconciler}
use pod_checkpoint_controlle.Sidecar.Steps.{IsWorking}
use pod_checkpoint_controlle.System.Members.Runs.{run_members, run_members_lem}
use pod_checkpoint_controlle.Pods.Rewritten.{
  has_container-All, all_restorable-rewritten, IsFresh-rewritten,
}

-- A PodCheckpoint that is new, of a pod with containers of different names, on the sidecar's node and
-- with a target node; and nothing of what will be made for it exists.
pub record IsRequested (K : Kube) (t : Table) (r : CheckpointReconciler) (pc : PodCheckpoint)
    (p : Pod) (c : Container) (cs : List Container) : Type 0 where
  pub stored : find t pod_checkpoint (key_of pc.metadata) ≡ some pc
  pub live : pc.metadata.deletion_timestamp ≡ none
  pub bare : K.contains_finalizer pc.metadata.finalizers pc_finalizer ≡ false
  pub dynamic : non_empty pc.spec.source.pod_checkpoint_content_name ≡ none
  pub pod_named : non_empty pc.spec.source.pod_name ≡ some p.metadata.name
  pub pod_stored :
      find t pod (record { namespace = pc.metadata.namespace; name = p.metadata.name }) ≡ some p
  pub unbound : pc.status.bound_pod_checkpoint_content_name ≡ none
  pub filled : (target_of pc == "") ≡ false
  pub here : (p.spec.node_name == r.node_name) ≡ true
  pub contained : p.spec.containers ≡ c ∷ cs
  pub distinct : Distinct (c ∷ cs)
  pub absent : All (IsAbsent pc t) (c ∷ cs)
  pub contentless : find t pod_checkpoint_content (cluster_key (content_name pc)) ≡ none

module _ (K : Kube) (L : Serves K) (H : Host K.State) (B : BacksOff H) (r : CheckpointReconciler)
    (f : String) (fs : List String) (pc : PodCheckpoint) (p : Pod) (c : Container)
    (cs : List Container) (W : IsWorking K L H B (target_of pc) f fs) (s : K.State)
    (v : IsRequested K (L.table s) r pc p c cs) where
  abbrev key : ObjectKey
  key = key_of pc.metadata

  -- Three runs of the controller, the runs for each member, and another one of the controller.
  abbrev s₁ : K.State
  s₁ = (reconcile K key s).1

  abbrev s₂ : K.State
  s₂ = (reconcile K key s₁).1

  abbrev s₃ : K.State
  s₃ = (reconcile K key s₂).1

  abbrev s₄ : K.State
  s₄ = run_members K H r pc (c ∷ cs) s₃

  guards :
      (w : ℕ) × (L.table s₁
        ≡ store pod_checkpoint key (some (stamped pod_checkpoint w (guarded K pc))) (L.table s))
  guards = let q = reconcile-guards K L pc s v.stored v.live v.bare in (q.0, q.2)

  abbrev pc₁ : PodCheckpoint
  pc₁ = stamped pod_checkpoint guards.0 (guarded K pc)

  prepared : IsPrepared K (L.table s₁) pc₁ p
  prepared = record {
    stored = rw guards.1 (find-store pod_checkpoint key (some pc₁) (L.table s));
    live = v.live;
    guarded = L.contains_finalizer-add_finalizer pc.metadata.finalizers pc_finalizer;
    dynamic = v.dynamic;
    pod_name = p.metadata.name;
    pod_named = v.pod_named;
    pod_stored = rw guards.1 v.pod_stored;
    unbound = v.unbound;
  }

  prepares :
      (w : ℕ) × (uid : String) × (L.table s₂
        ≡ store pod_checkpoint_content
            (cluster_key (content_name pc))
            (some (
              stamped pod_checkpoint_content w
                (admitted pod_checkpoint_content uid (new_content pc₁ p.metadata.name p))))
            (L.table s₁))
  unfolding prepared
  prepares =
      let q = reconcile-prepares K L pc₁ p s₁ prepared (rw guards.1 v.contentless) in
      (q.0, q.1, q.3)

  abbrev content₁ : PodCheckpointContent
  content₁ =
      stamped pod_checkpoint_content prepares.0
        (admitted pod_checkpoint_content prepares.1 (new_content pc₁ p.metadata.name p))

  placed : key_of content₁.metadata ≡ cluster_key (content_name pc)
  unfolding new_content
  placed = refl

  begins : IsBegun K L pc₁ p content₁ c cs v.contained (L.table s₂) (reconcile K key s₂)
  unfolding prepared new_content
  begins =
      reconcile-makes_members K L pc₁ p content₁ c cs v.contained s₂
        (record {
          stored = rw prepares.2 prepared.stored;
          live = v.live;
          guarded = prepared.guarded;
          dynamic = v.dynamic;
          pod_name = p.metadata.name;
          pod_named = v.pod_named;
          pod_stored = rw prepares.2 prepared.pod_stored;
          unbound = v.unbound;
        })
        placed
        (rw (prepares.2, placed)
          (find-store pod_checkpoint_content (cluster_key (content_name pc)) (some content₁)
            (L.table s₁)))
        v.distinct
        (All-map (IsAbsent pc (L.table s)) (IsAbsent pc₁ (L.table s₂))
          (λ d a. record {
            member = rw (prepares.2, guards.1) a.member;
            content = rw (prepares.2, guards.1) a.content;
          })
          (c ∷ cs) v.absent)

  pods₃ : (k : ObjectKey) → find (L.table s₃) pod k ≡ find (L.table s) pod k
  pods₃ k = begins.pods k ∙ rw (prepares.2, guards.1) refl

  migrations₃ :
      (k : ObjectKey) → find (L.table s₃) pod_migration k ≡ find (L.table s) pod_migration k
  migrations₃ k = begins.migrations k ∙ rw (prepares.2, guards.1) refl

  -- The members run to their ends.
  members :
      (all_restorable (L.table s₄) pc (c ∷ cs) ≡ true)
      × Spares pc (c ∷ cs) (L.table s₃) (L.table s₄)
  members =
      run_members_lem K L H B r f fs pc p v.filled W v.here (c ∷ cs) s₃ v.distinct
        (subst (λ l. All (λ d. has_container d.name l ≡ true) (c ∷ cs)) (sym v.contained)
          (has_container-All (c ∷ cs)))
        (pods₃ _ ∙ v.pod_stored)
        (All-map (IsFresh pc₁ p (L.table s₃)) (IsFresh pc p (L.table s₃))
          (λ d. IsFresh-rewritten (L.table s₃) pc p pc₁.metadata.finalizers guards.0 pc.status d)
          (c ∷ cs) begins.members)

  abbrev pc₃ : PodCheckpoint
  pc₃ = stamped pod_checkpoint begins.version (unready begins.message pc₁)

  abbrev content₃ : PodCheckpointContent
  content₃ =
      stamped pod_checkpoint_content begins.content_version
        (unready_content begins.message content₁)

  completes : IsComplete K L pc₃ p (L.table s₄) (reconcile K key s₄)
  unfolding new_content prepared
  completes =
      let (ready, spares) = members in
      reconcile-completes K L pc₃ p content₃ s₄
        (record {
          stored = spares.checkpoints key ∙ begins.checkpoint;
          live = v.live;
          guarded = prepared.guarded;
          dynamic = v.dynamic;
          pod_name = p.metadata.name;
          pod_named = v.pod_named;
          pod_stored = spares.pods _ ∙ (pods₃ _ ∙ v.pod_stored);
          unbound = v.unbound;
        })
        placed (spares.pod_contents (key_of content₁.metadata) ∙ begins.content)
        (rw v.contained (
          all_restorable-rewritten (L.table s₄) pc pc₁.metadata.finalizers begins.version
            (unready begins.message pc₁).status (c ∷ cs)
          ∙ ready))

  -- Of a stored PodCheckpoint that is not being deleted, has no finalizer of its controller, is not
  -- bound, does not ask for existing content, asks for a stored pod with one or more containers of
  -- different names on the sidecar's node, and names a target node, with a server that serves the
  -- runs one after another, a kubelet that answers with files and a sidecar of the target node that
  -- takes them, where nothing exists yet of what is made for the checkpoint: after three runs of its
  -- controller, four runs for each container, and a last run of its controller, the checkpoint is
  -- stored as ready, with no error, bound to its content, no other run is asked for, and no
  -- migration and no pod has changed.
  pub pod-checkpoint-completes :
      (pc' : PodCheckpoint) × (find (L.table (reconcile K key s₄).1) pod_checkpoint key ≡ some pc')
      × (pc'.status.ready_to_restore ≡ true)
      × (pc'.status.error_message ≡ "")
      × (pc'.status.bound_pod_checkpoint_content_name ≡ some (content_name pc))
      × ((reconcile K key s₄).0 ≡ finished)
      × ((k : ObjectKey)
          → find (L.table (reconcile K key s₄).1) pod_migration k
            ≡ find (L.table s) pod_migration k)
      × ((k : ObjectKey) → find (L.table (reconcile K key s₄).1) pod k ≡ find (L.table s) pod k)
  pod-checkpoint-completes =
      let (pc', there, ready, fine, bound, ends, migrations, pods) = completes in
      let (_, spares) = members in
      (
        pc',
        there,
        ready,
        fine,
        bound,
        ends,
        (λ k. migrations k ∙ (spares.migrations k ∙ migrations₃ k)),
        λ k. pods k ∙ (spares.pods k ∙ pods₃ k),
      )
