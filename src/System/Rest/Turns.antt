-- ===== src/System/Rest/Turns.antt =====
-- Runs of the reconcilers, in any order.
use pod_checkpoint_controlle.Prelude.{
  ◌≡◌, refl, subst, sym, ◌∙◌, inl, inr, List, [], ◌∷◌, Option-cases,
}
use pod_checkpoint_controlle.Go.Flow.{Reply, finished}
use pod_checkpoint_controlle.Api.Meta.{ObjectKey}
use pod_checkpoint_controlle.Api.Objects.{
  container_checkpoint, container_checkpoint_content, pod_checkpoint, pod_migration,
}
use pod_checkpoint_controlle.Kube.Client.{Kube}
use pod_checkpoint_controlle.Kube.Table.{find}
use pod_checkpoint_controlle.Kube.Laws.{Serves}
use pod_checkpoint_controlle.Containers.{cluster_key, reconcile as reconcile_checkpoint}
use pod_checkpoint_controlle.Pods.Reconcile.{reconcile as reconcile_pod_checkpoint}
use pod_checkpoint_controlle.Migrations.{reconcile as reconcile_migration}
use pod_checkpoint_controlle.Sidecar.Host.{Host}
use pod_checkpoint_controlle.Sidecar.Manager.{CheckpointReconciler}
use pod_checkpoint_controlle.Sidecar.Reconciler.{reconcile as reconcile_content}
use pod_checkpoint_controlle.System.Rest.{IsAtRest}
use pod_checkpoint_controlle.System.Rest.Runs.{
  IsQuiet, checkpoint-IsQuiet, checkpoint_missing, pod_checkpoint-IsQuiet, pod_checkpoint_missing,
  migration-IsQuiet, migration_missing, content-IsQuiet, content_missing,
}

-- A run: which reconciler, for a sidecar on which node, and which object.
pub data Turn : Type 0 where
  of_checkpoint of_pod_checkpoint of_migration : ObjectKey → Turn
  of_content : CheckpointReconciler → ObjectKey → Turn

module _ (K : Kube) (node : CheckpointReconciler → Host K.State) where
  abbrev pub take_turn : Turn → K.State → Reply × K.State
  take_turn (of_checkpoint key) = reconcile_checkpoint K key
  take_turn (of_pod_checkpoint key) = reconcile_pod_checkpoint K key
  take_turn (of_migration key) = reconcile_migration K key
  take_turn (of_content r key) = reconcile_content K (node r) r key

  unfoldable pub take_turns : List Turn → K.State → K.State
  take_turns [] s = s
  take_turns (turn ∷ turns) s = take_turns turns (take_turn turn s).1

  module _ (L : Serves K) where
    turn-IsQuiet :
        (turn : Turn) (s : K.State) → IsAtRest K (L.table s) → IsQuiet K L s (take_turn turn s)
    turn-IsQuiet (of_checkpoint key) s v =
        elim (Option-cases (find (L.table s) container_checkpoint key)) [
          | inl absent ↦ checkpoint_missing K L key s absent
          | inr (cc, stored) ↦ checkpoint-IsQuiet K L key s cc stored (v.checkpoints key cc stored)
        ]
    turn-IsQuiet (of_pod_checkpoint key) s v =
        elim (Option-cases (find (L.table s) pod_checkpoint key)) [
          | inl absent ↦ pod_checkpoint_missing K L key s absent
          | inr (pc, stored) ↦
              pod_checkpoint-IsQuiet K L key s pc stored (v.pod_checkpoints key pc stored)
        ]
    turn-IsQuiet (of_migration key) s v = elim (Option-cases (find (L.table s) pod_migration key)) [
      | inl absent ↦ migration_missing K L key s absent
      | inr (pm, stored) ↦
          let (placed, ended) = v.migrations key pm stored in
          migration-IsQuiet K L key s pm stored placed ended
    ]
    turn-IsQuiet (of_content r key) s v =
        elim (Option-cases (find (L.table s) container_checkpoint_content (cluster_key key.name))) [
          | inl absent ↦ content_missing K L (node r) r key s absent
          | inr (c, stored) ↦
              content-IsQuiet K L (node r) r key s c stored
                (v.contents (cluster_key key.name) c stored)
        ]

    -- On a server that serves the runs one after another, where every ContainerCheckpoint and every
    -- PodCheckpoint is bound, does not ask for existing content, and has its finalizer and its pod, with
    -- the container that is asked for, every ContainerCheckpointContent is ready and has its finalizer
    -- and its parent, which names a pod and a container, none of them is being deleted, and every
    -- migration has succeeded or failed: after any number of runs of the controllers and of sidecars,
    -- in any order and on any objects, stored or not, no object has changed, and the next run of any
    -- of them ends without an error and without asking to be run again.
    pub take_turns-IsAtRest :
        (turns : List Turn) (turn : Turn) (s : K.State)
        → IsAtRest K (L.table s)
        → (L.table (take_turns turns s) ≡ L.table s)
          × ((take_turn turn (take_turns turns s)).0 ≡ finished)
    unfolding take_turns
    take_turns-IsAtRest [] turn s v = (refl, (turn-IsQuiet turn s v).0)
    take_turns-IsAtRest (first ∷ turns) turn s v =
        let same = (turn-IsQuiet first s v).1 in
        let (kept, ends) =
          take_turns-IsAtRest turns turn (take_turn first s).1 (subst (IsAtRest K) (sym same) v) in
        (kept ∙ same, ends)
