-- ===== src/Examples/Whole.antt =====
-- The theorems on whole pod checkpoints and migrations at concrete inputs: the pod "web" moves from
-- the node "n1" to the node "n2".
use pod_checkpoint_controlle.Prelude.{◌==◌, ◌≡◌, refl, false, true, none, some, [], ◌∷◌, inr}
use pod_checkpoint_controlle.Prelude.Dict.{index_or_empty}
use pod_checkpoint_controlle.Go.Flow.{finished}
use pod_checkpoint_controlle.Api.Meta.{ObjectKey, named, Container, Pod}
use pod_checkpoint_controlle.Api.Containers.{ContainerCheckpoint}
use pod_checkpoint_controlle.Api.Objects.{
  container_checkpoint, pod_checkpoint, pod_checkpoint_content, pod_migration, pod,
}
use pod_checkpoint_controlle.Kube.Table.{find, store}
use pod_checkpoint_controlle.Kube.Memory.{Memory, empty_table, cluster-Serves, contains}
use pod_checkpoint_controlle.Api.Pods.{PodCheckpoint, PodCheckpointContent}
use pod_checkpoint_controlle.Api.Migrations.{PodMigration, pending, checkpointing, succeeded}
use pod_checkpoint_controlle.Pods.{pc_finalizer, new_content, target_of}
use pod_checkpoint_controlle.Pods.Members.{member_object}
use pod_checkpoint_controlle.Pods.Reconcile.{reconcile as reconcile_checkpoint}
use pod_checkpoint_controlle.Migrations.{new_checkpoint, reconcile}
use pod_checkpoint_controlle.Sidecar.Transfer.{target_ip}
use pod_checkpoint_controlle.Sidecar.Online.{
  online_host, online_host-BacksOff, online_host-IsWorking,
}
use pod_checkpoint_controlle.System.Members.Runs.{run_members}
use pod_checkpoint_controlle.System.PodCheckpoints.{IsRequested, pod-checkpoint-completes}
use pod_checkpoint_controlle.System.Migrations.{IsAwaited, IsRestored, migration-completes}
use pod_checkpoint_controlle.System.Whole.{IsNew, migration-succeeds}
use pod_checkpoint_controlle.Examples.System.{app, web, sidecars, K, on_n1, holding}

-- A migration of the pod "web" to the node "n2", and its checkpoint.
abbrev move : PodMigration
move = record {
  metadata = named "shop" "move";
  spec = record { source_pod_name = "web"; target_node = "n2" };
  status = record {
    phase = checkpointing;
    message = "";
    bound_checkpoint_name = "move-checkpoint";
    restored_pod_name = "";
  };
}

abbrev pub whole : PodCheckpoint
whole = record {
  metadata = record (named "shop" "move-checkpoint") { finalizers = pc_finalizer ∷ [] };
  spec = record {
    source = record { pod_name = some "web"; pod_checkpoint_content_name = none };
    deletion_policy = "Retain";
  };
  status = record {
    bound_pod_checkpoint_content_name = none;
    checkpoint_time = none;
    ready_to_restore = false;
    error_message = "";
  };
}

abbrev whole_content : PodCheckpointContent
whole_content = new_content whole "web" web

abbrev ready_member : ContainerCheckpoint
ready_member = record (member_object whole app) {
  status = record (member_object whole app).status { ready_to_restore = true };
}

abbrev pub move_key : ObjectKey
move_key = record { namespace = "shop"; name = "move" }

abbrev pub whole_key : ObjectKey
whole_key = record { namespace = "shop"; name = "move-checkpoint" }

abbrev target_key : ObjectKey
target_key = record { namespace = "shop"; name = "move-restored" }

abbrev waiting : Memory
waiting = holding (
    store container_checkpoint (record { namespace = "shop"; name = "move-checkpoint-app" })
      (some ready_member)
      (store pod_checkpoint_content (record { namespace = ""; name = "move-checkpoint-pcc" })
        (some whole_content)
        (store pod_checkpoint whole_key (some whole) (
          store pod_migration move_key (some move)
            (store pod (record { namespace = "shop"; name = "web" }) (some web) empty_table)))))

move-IsAwaited : IsAwaited K waiting.table move whole web web whole_content app []
unfolding contains new_content
move-IsAwaited = record {
  waiting = refl;
  phase = refl;
  bound = refl;
  prepared = record {
    stored = refl;
    live = refl;
    guarded = refl;
    dynamic = refl;
    pod_name = "web";
    pod_named = refl;
    pod_stored = refl;
    unbound = refl;
  };
  placed = refl;
  held = refl;
  ready = refl;
  source_there = refl;
  contained = refl;
  free = refl;
}

migration-completes_example :
    let s₁ = (reconcile_checkpoint K whole_key waiting).1 in
    let s₂ = (reconcile K move_key s₁).1 in
    let s₃ = (reconcile K move_key s₂).1 in
    (pm' : PodMigration) × (new : Pod) × (find s₃.table pod_migration move_key ≡ some pm')
    × (pm'.status.phase ≡ succeeded)
    × (pm'.status.restored_pod_name ≡ new.metadata.name)
    × (find s₃.table pod target_key ≡ some new)
    × (new.spec.node_name ≡ "n2")
    × (new.spec.containers ≡ app ∷ [])
unfolding cluster-Serves
migration-completes_example =
    migration-completes K (cluster-Serves sidecars) move whole web web whole_content app [] waiting
      move-IsAwaited

-- The same migration before it has begun, of a pod with two containers.
abbrev log : Container
log = record { name = "log"; other = "" }

abbrev double : Pod
double = record web { spec = record web.spec { containers = app ∷ log ∷ [] } }

abbrev pub requested : PodMigration
requested = record move {
  status = record move.status { phase = pending; bound_checkpoint_name = "" };
}

abbrev bare : Memory
bare = holding (
    store pod_migration move_key (some requested)
      (store pod (record { namespace = "shop"; name = "web" }) (some double) empty_table))

reached : (target_ip "n2" sidecars == "") ≡ false
unfolding target_ip
reached = refl

requested-IsNew : IsNew bare.table on_n1 requested double app (log ∷ [])
unfolding new_checkpoint
requested-IsNew = record {
  stored = refl;
  phase = inr refl;
  source_there = refl;
  named = refl;
  source_filled = refl;
  target_filled = refl;
  here = refl;
  contained = refl;
  distinct = ((refl, tt), (tt, tt));
  unmade = refl;
  contentless = refl;
  absent =
      (record { member = refl; content = refl }, (record { member = refl; content = refl }, tt));
  free = refl;
}

-- A run of the PodCheckpoint's controller.
abbrev run : Memory → Memory
run s = (reconcile_checkpoint K whole_key s).1

migration-succeeds_example :
    let s₁ = (reconcile K move_key bare).1 in
    let s₂ = run (run (run s₁)) in
    let s₃ = run_members K (online_host 201) on_n1 (new_checkpoint requested) (app ∷ log ∷ []) s₂ in
    let s₄ = (reconcile K move_key (run s₃)).1 in
    IsRestored requested double (reconcile K move_key s₄).1.table
unfolding cluster-Serves new_checkpoint run_members
migration-succeeds_example =
    migration-succeeds K (cluster-Serves sidecars) (online_host 201) (online_host-BacksOff 201)
      on_n1 "web.tar" [] requested double app (log ∷ [])
      (online_host-IsWorking sidecars "n2" reached) bare requested-IsNew

-- The checkpoint of such a migration, on its own.
abbrev new_whole : PodCheckpoint
new_whole = new_checkpoint requested

abbrev lone : Memory
lone = holding (
    store pod_checkpoint whole_key (some new_whole)
      (store pod (record { namespace = "shop"; name = "web" }) (some double) empty_table))

targeted : (target_ip (target_of new_whole) sidecars == "") ≡ false
unfolding target_ip new_checkpoint index_or_empty
targeted = refl

new_whole-IsRequested : IsRequested K lone.table on_n1 new_whole double app (log ∷ [])
unfolding contains new_checkpoint index_or_empty
new_whole-IsRequested = record {
  stored = refl;
  live = refl;
  bare = refl;
  dynamic = refl;
  pod_named = refl;
  pod_stored = refl;
  unbound = refl;
  filled = refl;
  here = refl;
  contained = refl;
  distinct = ((refl, tt), (tt, tt));
  absent =
      (record { member = refl; content = refl }, (record { member = refl; content = refl }, tt));
  contentless = refl;
}

pod-checkpoint-completes_example :
    let s₃ = run (run (run lone)) in
    let s₄ = run_members K (online_host 201) on_n1 new_whole (app ∷ log ∷ []) s₃ in
    (pc : PodCheckpoint) × (find (run s₄).table pod_checkpoint whole_key ≡ some pc)
    × (pc.status.ready_to_restore ≡ true)
    × (pc.status.error_message ≡ "")
    × (pc.status.bound_pod_checkpoint_content_name ≡ some "move-checkpoint-pcc")
    × ((reconcile_checkpoint K whole_key s₄).0 ≡ finished)
    × ((k : ObjectKey) → find (run s₄).table pod_migration k ≡ find lone.table pod_migration k)
    × ((k : ObjectKey) → find (run s₄).table pod k ≡ find lone.table pod k)
unfolding cluster-Serves new_checkpoint
pod-checkpoint-completes_example =
    pod-checkpoint-completes K (cluster-Serves sidecars) (online_host 201)
      (online_host-BacksOff 201) on_n1 "web.tar" [] new_whole double app (log ∷ [])
      (online_host-IsWorking sidecars (target_of new_whole) targeted) lone new_whole-IsRequested
