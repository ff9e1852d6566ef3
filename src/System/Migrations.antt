-- ===== src/System/Migrations.antt =====
-- A migration from the last container checkpoint to the restored pod: the controllers of
-- internal/controller/podcheckpoint_controller.go and podmigration_controller.go, in turn.
use pod_checkpoint_controlle.Prelude.{◌≡◌, refl, ◌∙◌, true, none, some, List, ◌∷◌}
use pod_checkpoint_controlle.Api.Meta.{key_of, Container, Pod}
use pod_checkpoint_controlle.Api.Pods.{PodCheckpoint, PodCheckpointContent}
use pod_checkpoint_controlle.Api.Migrations.{PodMigration, checkpointing, succeeded}
use pod_checkpoint_controlle.Api.Objects.{
  pod_checkpoint, pod_checkpoint_content, pod, pod_migration,
}
use pod_checkpoint_controlle.Kube.Client.{Kube}
use pod_checkpoint_controlle.Kube.Table.{Table, find, store, stamped, find-store}
use pod_checkpoint_controlle.Kube.Laws.{Serves, admitted}
use pod_checkpoint_controlle.Containers.{cluster_key}
use pod_checkpoint_controlle.Pods.{content_name}
use pod_checkpoint_controlle.Pods.Aggregate.{all_restorable}
use pod_checkpoint_controlle.Pods.Creation.{IsPrepared}
use pod_checkpoint_controlle.Pods.Completion.{reconcile-completes}
use pod_checkpoint_controlle.Pods.Reconcile.{reconcile as reconcile_checkpoint}
use pod_checkpoint_controlle.Migrations.{restored_pod, to_restoring, reconcile}
use pod_checkpoint_controlle.Migrations.Phases.{
  bound_key, source_key, target_key, success, reconcile-ready,
}
use pod_checkpoint_controlle.Migrations.Restore.{reconcile-restores}

-- The migration has succeeded and names its restored pod, which is stored, assigned to the target
-- node, with the containers of the source pod.
abbrev pub IsRestored : PodMigration → Pod → Table → Type 0
IsRestored pm source t =
    (pm' : PodMigration) × (new : Pod) × (find t pod_migration (key_of pm.metadata) ≡ some pm')
    × (pm'.status.phase ≡ succeeded)
    × (pm'.status.restored_pod_name ≡ new.metadata.name)
    × (find t pod (target_key pm) ≡ some new)
    × (new.spec.node_name ≡ pm.spec.target_node)
    × (new.spec.containers ≡ source.spec.containers)

-- The last two runs of the migration's controller, once the checkpoint is ready.
module _ (K : Kube) (L : Serves K) (pm : PodMigration) (pc' : PodCheckpoint) (source : Pod)
    (c : Container) (cs : List Container) (s : K.State)
    (waiting : find (L.table s) pod_migration (key_of pm.metadata) ≡ some pm)
    (phase : pm.status.phase ≡ checkpointing)
    (there : find (L.table s) pod_checkpoint (bound_key pm) ≡ some pc')
    (ready : pc'.status.ready_to_restore ≡ true)
    (source_there : find (L.table s) pod (source_key pm) ≡ some source)
    (contained : source.spec.containers ≡ c ∷ cs)
    (free : find (L.table s) pod (target_key pm) ≡ none) where
  abbrev once : K.State
  once = (reconcile K (key_of pm.metadata) s).1

  abbrev twice : K.State
  twice = (reconcile K (key_of pm.metadata) once).1

  pub ready_lem : IsRestored pm source (L.table twice)
  unfolding restored_pod
  ready_lem =
      let (w, _, proceeds) = reconcile-ready K L pm s waiting phase pc' there ready in
      let pm₁ : PodMigration = stamped pod_migration w (to_restoring pm) in
      let restoring : find (L.table once) pod_migration (key_of pm.metadata) ≡ some pm₁ =
        rw proceeds (find-store pod_migration (key_of pm.metadata) (some pm₁) (L.table s)) in
      let source₁ : find (L.table once) pod (source_key pm) ≡ some source =
        rw proceeds source_there in
      let free₁ : find (L.table once) pod (target_key pm) ≡ none = rw proceeds free in
      let (x, y, uid, _, succeeds) =
        reconcile-restores K L pm₁ once restoring refl source source₁ c cs contained free₁ in
      let pm₂ : PodMigration = stamped pod_migration y (success K pm₁ pm₁) in
      let new : Pod = stamped pod x (admitted pod uid (restored_pod pm₁ source c)) in
      (
        pm₂,
        new,
        rw succeeds (
            find-store pod_migration (key_of pm.metadata) (some pm₂)
              (store pod (target_key pm) (some new) (L.table once))),
        refl,
        refl,
        rw succeeds (find-store pod (target_key pm) (some new) (L.table once)),
        refl,
        refl,
      )

-- A migration that waits for a PodCheckpoint whose content exists and whose container checkpoints
-- are all ready; the pod that it restores has a container, and its restored pod does not exist.
pub record IsAwaited (K : Kube) (t : Table) (pm : PodMigration) (pc : PodCheckpoint)
    (p source : Pod) (pcc : PodCheckpointContent) (c : Container) (cs : List Container)
    : Type 0 where
  pub waiting : find t pod_migration (key_of pm.metadata) ≡ some pm
  pub phase : pm.status.phase ≡ checkpointing
  pub bound : bound_key pm ≡ key_of pc.metadata
  pub prepared : IsPrepared K t pc p
  pub placed : key_of pcc.metadata ≡ cluster_key (content_name pc)
  pub held : find t pod_checkpoint_content (key_of pcc.metadata) ≡ some pcc
  pub ready : all_restorable t pc p.spec.containers ≡ true
  pub source_there : find t pod (source_key pm) ≡ some source
  pub contained : source.spec.containers ≡ c ∷ cs
  pub free : find t pod (target_key pm) ≡ none

module _ (K : Kube) (L : Serves K) (pm : PodMigration) (pc : PodCheckpoint) (p source : Pod)
    (pcc : PodCheckpointContent) (c : Container) (cs : List Container) (s : K.State)
    (v : IsAwaited K (L.table s) pm pc p source pcc c cs) where
  -- The three runs: the PodCheckpoint's controller, and the migration's, twice.
  abbrev checked : K.State
  checked = (reconcile_checkpoint K (key_of pc.metadata) s).1

  abbrev released : K.State
  released = (reconcile K (key_of pm.metadata) checked).1

  abbrev restored : K.State
  restored = (reconcile K (key_of pm.metadata) released).1

  -- Of a migration that waits for a checkpoint, with a server that serves the runs one after
  -- another: if the checkpoint is stored, not being deleted, has its finalizer, is not bound,
  -- does not ask for existing content and asks for a stored pod, its content is stored, every container of the pod has a
  -- ContainerCheckpoint that is ready without an error, the source pod has a container and no pod
  -- has the restored pod's name, then after one run of the PodCheckpoint's controller and two of the
  -- migration's the migration is stored as succeeded and names the restored pod, which is stored,
  -- assigned to the target node, with the containers of the source pod.
  pub migration-completes : IsRestored pm source (L.table restored)
  migration-completes =
      let (pc', there, ready, _, _, _, migrations, pods) =
        reconcile-completes K L pc p pcc s v.prepared v.placed v.held v.ready in
      ready_lem K L pm pc' source c cs checked (migrations (key_of pm.metadata) ∙ v.waiting) v.phase
        (rw v.bound there) ready (pods (source_key pm) ∙ v.source_there) v.contained
        (pods (target_key pm) ∙ v.free)
