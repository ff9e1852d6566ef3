-- ===== src/Examples/Containers.antt =====
-- The theorems on internal/controller/containercheckpoint_controller.go at concrete inputs.
use pod_checkpoint_controlle.Prelude.{
  ℕ, String, Bool, List, Option, ◌≡◌, refl, false, true, none, some, [], ◌∷◌,
}
use pod_checkpoint_controlle.Go.Flow.{finished, requeue_in}
use pod_checkpoint_controlle.Go.Errors.{seconds}
use pod_checkpoint_controlle.Api.Meta.{ObjectKey, named, Container, Pod, running}
use pod_checkpoint_controlle.Api.Containers.{ContainerCheckpoint, ContainerCheckpointContent}
use pod_checkpoint_controlle.Api.Objects.{container_checkpoint, container_checkpoint_content, pod}
use pod_checkpoint_controlle.Kube.Table.{Table, find, store, stamped, settle}
use pod_checkpoint_controlle.Kube.Laws.{doomed}
use pod_checkpoint_controlle.Kube.Memory.{
  Memory, empty, empty_table, memory_kube, memory_kube-Serves, cluster-Serves, contains,
}
use pod_checkpoint_controlle.Containers.{cc_finalizer, has_container, reconcile}
use pod_checkpoint_controlle.Containers.Validated.{IsValidated}
use pod_checkpoint_controlle.Containers.Content.{reconcile-mirrored, reconcile-unready}
use pod_checkpoint_controlle.Containers.Deletion.{released, reconcile-retains, reconcile-deletes}

abbrev key : ObjectKey
key = record { namespace = "shop"; name = "web-app" }

abbrev content_key : ObjectKey
content_key = record { namespace = ""; name = "web-app" }

abbrev pod_key : ObjectKey
pod_key = record { namespace = "shop"; name = "web" }

-- A checkpoint of the container "app" of the pod "web": its policy, its content, its finalizers and
-- the time of its deletion.
abbrev checkpoint : String → Option String → List String → Option ℕ → ContainerCheckpoint
checkpoint policy bound finalizers at = record {
  metadata = record (named "shop" "web-app") { finalizers = finalizers; deletion_timestamp = at };
  spec = record {
    source = record {
      pod_name = some "web";
      container_name = some "app";
      container_checkpoint_content_name = none;
    };
    deletion_policy = policy;
  };
  status = record {
    bound_container_checkpoint_content_name = bound;
    ready_to_restore = false;
    error_message = "";
    checkpoint_time = none;
  };
}

abbrev live : ContainerCheckpoint
live = checkpoint "Delete" none (cc_finalizer ∷ []) none

abbrev deleting : String → ContainerCheckpoint
deleting policy = checkpoint policy (some "web-app") (cc_finalizer ∷ []) (some 7)

abbrev content : Bool → String → ContainerCheckpointContent
content ready message = record {
  metadata = named "" "web-app";
  spec = record {
    container_checkpoint_ref = some (record { name = "web-app"; namespace = "shop" });
    deletion_policy = "Delete";
    storage_location = "node://n2";
  };
  status = record { ready_to_restore = ready; error_message = message; checkpoint_time = some 5 };
}

abbrev app : Container
app = record { name = "app"; other = "" }

abbrev web : Pod
web = record {
  metadata = named "shop" "web";
  spec = record {
    containers = app ∷ [];
    node_name = "n1";
    node_selector = none;
    affinity = none;
    other = "";
  };
  status = record { phase = running; pod_ip = "10.0.0.1" };
}

abbrev holding : Table → Memory
holding t = record empty { table = t }

abbrev asked : Table
asked = store pod pod_key (some web) (store container_checkpoint key (some live) empty_table)

abbrev answered : Bool → String → Table
answered ready message =
    store container_checkpoint_content content_key (some (content ready message)) asked

valid :
    (t : Table)
    → find t pod pod_key ≡ some web
    → find t container_checkpoint key ≡ some live
    → IsValidated memory_kube t live web
unfolding contains has_container
valid t there stored = record {
  stored = stored;
  live = refl;
  guarded = refl;
  dynamic = refl;
  pod_name = "web";
  pod_named = refl;
  container_name = "app";
  container_named = refl;
  pod_stored = there;
  contained = refl;
}

reconcile-mirrored_example :
    (w : ℕ) × ((reconcile memory_kube key (holding (answered true ""))).0 ≡ finished)
    × ((reconcile memory_kube key (holding (answered true ""))).1.table
        ≡ store container_checkpoint key
            (some (
              stamped container_checkpoint w (record live {
                status = record {
                  bound_container_checkpoint_content_name = some "web-app";
                  ready_to_restore = true;
                  error_message = (content true "").status.error_message;
                  checkpoint_time = (content true "").status.checkpoint_time;
                };
              })))
            (answered true ""))
unfolding cluster-Serves
reconcile-mirrored_example =
    reconcile-mirrored memory_kube memory_kube-Serves live web (holding (answered true ""))
      (valid (answered true "") refl refl) refl (content true "") refl refl

reconcile-unready_example :
    ((reconcile memory_kube key (holding (answered false "no such node"))).0
      ≡ requeue_in (seconds 5))
    × ((reconcile memory_kube key (holding (answered false "no such node"))).1.table
        ≡ answered false "no such node")
unfolding cluster-Serves
reconcile-unready_example =
    reconcile-unready memory_kube memory_kube-Serves live web
      (holding (answered false "no such node")) (valid (answered false "no such node") refl refl)
      refl (content false "no such node") refl refl

-- The checkpoint is being deleted; its content is there.
abbrev dying : String → Table
dying policy =
    store container_checkpoint_content content_key (some (content true ""))
      (store container_checkpoint key (some (deleting policy)) empty_table)

reconcile-retains_example :
    (w : ℕ) × ((reconcile memory_kube key (holding (dying ""))).0 ≡ finished)
    × ((reconcile memory_kube key (holding (dying ""))).1.table
        ≡ store container_checkpoint key
            (settle container_checkpoint w (released memory_kube (deleting "")))
            (dying ""))
unfolding cluster-Serves contains
reconcile-retains_example =
    reconcile-retains memory_kube memory_kube-Serves (deleting "") (holding (dying "")) refl
      {at = 7} refl refl refl

reconcile-deletes_example :
    (v w time : ℕ) × ((reconcile memory_kube key (holding (dying "Delete"))).0 ≡ finished)
    × ((reconcile memory_kube key (holding (dying "Delete"))).1.table
        ≡ store container_checkpoint key
            (settle container_checkpoint w (released memory_kube (deleting "Delete")))
            (store container_checkpoint_content content_key
              (settle container_checkpoint_content v
                (doomed container_checkpoint_content time (content true "")))
              (dying "Delete")))
unfolding cluster-Serves contains
reconcile-deletes_example =
    reconcile-deletes memory_kube memory_kube-Serves (deleting "Delete") (holding (dying "Delete"))
      refl {at = 7} refl refl refl {name = "web-app"} refl {content = content true ""} refl
