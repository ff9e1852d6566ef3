-- ===== src/Examples/Migrations.antt =====
-- The theorems on internal/controller/podmigration_controller.go at concrete inputs.
use pod_checkpoint_controlle.Prelude.{
  ℕ, ◌+◌, ◌≡◌, ◌≢◌, ◌≤◌, refl, Bool, List, true, none, some, [], ◌∷◌,
}
use pod_checkpoint_controlle.Go.Flow.{finished}
use pod_checkpoint_controlle.Api.Meta.{ObjectKey, named, Container, Pod, running}
use pod_checkpoint_controlle.Api.Pods.{PodCheckpoint}
use pod_checkpoint_controlle.Api.Migrations.{
  PodMigration, PodMigrationPhase, checkpointing, restoring, failed,
}
use pod_checkpoint_controlle.Api.Objects.{pod_checkpoint, pod_migration, pod}
use pod_checkpoint_controlle.Kube.Table.{Table, find, store, stamped, find-store}
use pod_checkpoint_controlle.Kube.Memory.{
  Memory, empty, empty_table, memory_kube, memory_kube-Serves, cluster-Serves,
}
use pod_checkpoint_controlle.Migrations.{to_restoring, reconcile}
use pod_checkpoint_controlle.Migrations.Phases.{reconcile-ready}
use pod_checkpoint_controlle.Migrations.Restore.{reconcile-fails}
use pod_checkpoint_controlle.Migrations.Refinement.{Refines, reconcile-Refines}
use pod_checkpoint_controlle.Migrations.Graph.{Follows, reconcile-Edge}
use pod_checkpoint_controlle.Migrations.Changes.{begun, ran, changed, Changes-bounded}
use pod_checkpoint_controlle.Migrations.Runs.{here, reconciled, rank, Reaches-rank}

-- A migration of the pod "web" to the node "n2", in a phase.
abbrev move : PodMigrationPhase → PodMigration
move phase = record {
  metadata = named "shop" "move";
  spec = record { source_pod_name = "web"; target_node = "n2" };
  status = record {
    phase = phase;
    message = "";
    bound_checkpoint_name = "move-checkpoint";
    restored_pod_name = "";
  };
}

abbrev key : ObjectKey
key = record { namespace = "shop"; name = "move" }

abbrev checkpoint_key : ObjectKey
checkpoint_key = record { namespace = "shop"; name = "move-checkpoint" }

abbrev target_key : ObjectKey
target_key = record { namespace = "shop"; name = "move-restored" }

abbrev source_key : ObjectKey
source_key = record { namespace = "shop"; name = "web" }

abbrev checkpoint : Bool → PodCheckpoint
checkpoint ready = record {
  metadata = named "shop" "move-checkpoint";
  spec = record {
    source = record { pod_name = some "web"; pod_checkpoint_content_name = none };
    deletion_policy = "";
  };
  status = record {
    bound_pod_checkpoint_content_name = none;
    checkpoint_time = none;
    ready_to_restore = ready;
    error_message = "";
  };
}

abbrev app : Container
app = record { name = "app"; other = "" }

abbrev web : List Container → Pod
web containers = record {
  metadata = named "shop" "web";
  spec = record {
    containers = containers;
    node_name = "n1";
    node_selector = none;
    affinity = none;
    other = "";
  };
  status = record { phase = running; pod_ip = "10.0.0.1" };
}

abbrev holding : Table → Memory
holding t = record empty { table = t }

-- The migration alone, in a phase.
abbrev alone : PodMigrationPhase → Table
alone phase = store pod_migration key (some (move phase)) empty_table

abbrev with_checkpoint : Bool → Table → Table
with_checkpoint ready t = store pod_checkpoint checkpoint_key (some (checkpoint ready)) t

abbrev with_source : List Container → Table → Table
with_source l t = store pod source_key (some (web l)) t

reconcile-fails_example :
    (w : ℕ) × ((reconcile memory_kube key (holding (with_source [] (alone restoring)))).0
      ≡ finished)
    × ((reconcile memory_kube key (holding (with_source [] (alone restoring)))).1.table
        ≡ store pod_migration key
            (some (
              stamped pod_migration w (record (move restoring) {
                status = record (move restoring).status {
                  phase = failed;
                  message = "source Pod has no containers";
                };
              })))
            (with_source [] (alone restoring)))
unfolding cluster-Serves
reconcile-fails_example =
    reconcile-fails memory_kube memory_kube-Serves (move restoring)
      (holding (with_source [] (alone restoring))) refl refl (web []) refl refl

reconcile-Refines_example :
    Refines
      (move restoring)
      (with_source (app ∷ []) (alone restoring))
      (reconcile memory_kube key (holding (with_source (app ∷ []) (alone restoring)))).1.table
unfolding cluster-Serves
reconcile-Refines_example =
    reconcile-Refines memory_kube memory_kube-Serves (move restoring)
      (holding (with_source (app ∷ []) (alone restoring))) refl

reconcile-Edge_example :
    Follows memory_kube memory_kube-Serves checkpointing key
      (reconcile memory_kube key (holding (with_checkpoint true (alone checkpointing)))).1.table
unfolding cluster-Serves
reconcile-Edge_example =
    reconcile-Edge memory_kube memory_kube-Serves (move checkpointing)
      (holding (with_checkpoint true (alone checkpointing))) refl

-- Two runs of the controller.
abbrev twice : Memory → Memory
twice s = (reconcile memory_kube key (reconcile memory_kube key s).1).1

Reaches-rank_example :
    (pm' : PodMigration) × (find
        (twice (holding (with_checkpoint true (alone checkpointing)))).table
        pod_migration
        key
      ≡ some pm')
    × (rank checkpointing ≤ rank pm'.status.phase)
unfolding cluster-Serves
Reaches-rank_example =
    Reaches-rank memory_kube memory_kube-Serves key (reconciled (reconciled here))
      (move checkpointing) refl refl

waits-restores : checkpointing ≢ restoring
waits-restores = λ e. cc (e)

abbrev ready_state : Memory
ready_state = holding (with_checkpoint true (alone checkpointing))

goes_on :
    (w : ℕ) × (find (reconcile memory_kube key ready_state).1.table pod_migration key
      ≡ some (stamped pod_migration w (to_restoring (move checkpointing))))
unfolding cluster-Serves
goes_on =
    let (w, _, e) =
      reconcile-ready memory_kube memory_kube-Serves (move checkpointing) ready_state refl refl
        (checkpoint true) refl refl in
    (
      w,
      rw e (
          find-store pod_migration key
            (some (stamped pod_migration w (to_restoring (move checkpointing)))) ready_state.table),
    )

-- One run that changes the phase, and one that may or may not.
Changes-bounded_example : 1 + rank checkpointing ≤ 3
unfolding cluster-Serves
Changes-bounded_example =
    Changes-bounded memory_kube memory_kube-Serves key
      (ran (
        changed {t = ready_state} begun (move checkpointing)
          (stamped pod_migration goes_on.0 (to_restoring (move checkpointing))) refl goes_on.1
          waits-restores))
      (move checkpointing) refl refl
