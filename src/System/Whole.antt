-- ===== src/System/Whole.antt =====
-- A migration from its request to the restored pod: all controllers, and the sidecar of the pod's
-- node, in turn.
use pod_checkpoint_controlle.Prelude.{
  ℕ, String, ◌==◌, ◌≡◌, refl, sym, subst, ◌∙◌, true, false, ◌⊎◌, none, some, List, ◌∷◌,
}
use pod_checkpoint_controlle.Prelude.All.{All, All-map}
use pod_checkpoint_controlle.Prelude.Dict.{index_or_empty}
use pod_checkpoint_controlle.Api.Meta.{ObjectKey, key_of, Container, Pod}
use pod_checkpoint_controlle.Api.Pods.{PodCheckpoint}
use pod_checkpoint_controlle.Api.Migrations.{PodMigration, unset, pending}
use pod_checkpoint_controlle.Api.Objects.{
  pod_checkpoint, pod_checkpoint_content, pod, pod_migration,
}
use pod_checkpoint_controlle.Kube.Client.{Kube}
use pod_checkpoint_controlle.Kube.Table.{Table, find, store, stamped, find-store}
use pod_checkpoint_controlle.Kube.Laws.{Serves, admitted}
use pod_checkpoint_controlle.Containers.{cluster_key}
use pod_checkpoint_controlle.Pods.{content_name, target_of}
use pod_checkpoint_controlle.Pods.Frame.{Distinct}
use pod_checkpoint_controlle.Pods.Fresh.{IsAbsent}
use pod_checkpoint_controlle.Pods.Reconcile.{reconcile as reconcile_checkpoint}
use pod_checkpoint_controlle.Migrations.{
  checkpoint_name, new_checkpoint, to_checkpointing, reconcile,
}
use pod_checkpoint_controlle.Migrations.Phases.{
  owned_checkpoint, checkpoint_key, source_key, target_key, reconcile-begins,
}
use pod_checkpoint_controlle.Sidecar.Host.{Host}
use pod_checkpoint_controlle.Sidecar.Kubelet.Polls.{BacksOff}
use pod_checkpoint_controlle.Sidecar.Manager.{CheckpointReconciler}
use pod_checkpoint_controlle.Sidecar.Steps.{IsWorking}
use pod_checkpoint_controlle.System.Members.Runs.{run_members}
use pod_checkpoint_controlle.System.PodCheckpoints.{IsRequested, pod-checkpoint-completes}
use pod_checkpoint_controlle.System.Migrations.{IsRestored, ready_lem}

-- A migration that has not begun, of a stored pod with containers of different names on the
-- sidecar's node, to a named node; and nothing of what will be made for it exists.
pub record IsNew (t : Table) (r : CheckpointReconciler) (pm : PodMigration) (p : Pod)
    (c : Container) (cs : List Container) : Type 0 where
  pub stored : find t pod_migration (key_of pm.metadata) ≡ some pm
  pub phase : (pm.status.phase ≡ unset) ⊎ (pm.status.phase ≡ pending)
  pub source_there : find t pod (source_key pm) ≡ some p
  pub named : p.metadata.name ≡ pm.spec.source_pod_name
  pub source_filled : (pm.spec.source_pod_name == "") ≡ false
  pub target_filled : (pm.spec.target_node == "") ≡ false
  pub here : (p.spec.node_name == r.node_name) ≡ true
  pub contained : p.spec.containers ≡ c ∷ cs
  pub distinct : Distinct (c ∷ cs)
  pub unmade : find t pod_checkpoint (checkpoint_key pm) ≡ none
  pub contentless :
      find t pod_checkpoint_content (cluster_key (content_name (new_checkpoint pm))) ≡ none
  pub absent : All (IsAbsent (new_checkpoint pm) t) (c ∷ cs)
  pub free : find t pod (target_key pm) ≡ none

module _ (K : Kube) (L : Serves K) (H : Host K.State) (B : BacksOff H) (r : CheckpointReconciler)
    (f : String) (fs : List String) (pm : PodMigration) (p : Pod) (c : Container)
    (cs : List Container) (W : IsWorking K L H B pm.spec.target_node f fs) (s : K.State)
    (v : IsNew (L.table s) r pm p c cs) where
  abbrev key : ObjectKey
  key = key_of pm.metadata

  abbrev requested : K.State
  requested = (reconcile K key s).1

  pub begins :
      (x y : ℕ) × (uid : String) × (L.table requested
        ≡ store pod_migration key
            (some (stamped pod_migration y (to_checkpointing (checkpoint_name pm) pm)))
            (store pod_checkpoint
              (checkpoint_key pm)
              (some
                (stamped pod_checkpoint x (admitted pod_checkpoint uid (owned_checkpoint L pm))))
              (L.table s)))
  begins =
      let (x, y, uid, _, table) = reconcile-begins K L pm s v.stored v.phase v.unmade in
      (x, y, uid, table)

  -- The checkpoint that it creates, and the migration that waits for it.
  abbrev pc : PodCheckpoint
  pc = stamped pod_checkpoint begins.0 (admitted pod_checkpoint begins.2 (owned_checkpoint L pm))

  abbrev waiting : PodMigration
  waiting = stamped pod_migration begins.1 (to_checkpointing (checkpoint_name pm) pm)

  target : target_of pc ≡ pm.spec.target_node
  unfolding new_checkpoint index_or_empty
  target = refl

  request : IsRequested K (L.table requested) r pc p c cs
  unfolding new_checkpoint
  request = record {
    stored = rw begins.3 (find-store pod_checkpoint (checkpoint_key pm) (some pc) (L.table s));
    live = refl;
    bare = L.contains_finalizer-nil _;
    dynamic = refl;
    pod_named = rw (v.source_filled, v.named) refl;
    pod_stored =
        subst
          (λ n.
            find (L.table requested) pod (record { namespace = pm.metadata.namespace; name = n })
            ≡ some p)
          (sym v.named) (rw begins.3 v.source_there);
    unbound = refl;
    filled = rw target v.target_filled;
    here = v.here;
    contained = v.contained;
    distinct = v.distinct;
    absent =
        All-map (IsAbsent (new_checkpoint pm) (L.table s)) (IsAbsent pc (L.table requested))
          (λ d a. record { member = rw begins.3 a.member; content = rw begins.3 a.content })
          (c ∷ cs) v.absent;
    contentless = rw begins.3 v.contentless;
  }

  -- The runs of the checkpoint's controller and of the members, up to the last one that it needs.
  abbrev run_checkpoint : K.State → K.State
  run_checkpoint t = (reconcile_checkpoint K (checkpoint_key pm) t).1

  abbrev completed : K.State
  completed =
      run_checkpoint
        (run_members K H r pc (c ∷ cs) (run_checkpoint (run_checkpoint (run_checkpoint requested))))

  abbrev restored : K.State
  restored = (reconcile K key (reconcile K key completed).1).1

  -- Of a new migration to a named node, of a stored pod with one or more containers of different
  -- names on the sidecar's node, with a server that serves the runs one after another, a kubelet
  -- that answers with files and a sidecar of the target node that takes them, where nothing exists
  -- yet of what is made for the migration: after one run of its controller, three of the
  -- PodCheckpoint's, four for each container, another one of the PodCheckpoint's and two of the
  -- migration's, the migration has succeeded and names the restored pod, which is stored, assigned
  -- to the target node, with the containers of the source pod.
  pub migration-succeeds : IsRestored pm p (L.table restored)
  unfolding new_checkpoint
  migration-succeeds =
      let working : IsWorking K L H B (target_of pc) f fs = rw target W in
      let (pc', there, ready, _, _, _, migrations, pods) =
        pod-checkpoint-completes K L H B r f fs pc p c cs working requested request in
      ready_lem K L waiting pc' p c cs completed
        (migrations key
          ∙ rw begins.3 (
              find-store pod_migration key (some waiting)
                (store pod_checkpoint (checkpoint_key pm) (some pc) (L.table s))))
        refl there ready (pods (source_key pm) ∙ rw begins.3 v.source_there) v.contained
        (pods (target_key pm) ∙ rw begins.3 v.free)
