-- ===== src/Examples/Sidecar.antt =====
-- The theorems on internal/sidecar at concrete inputs.
use pod_checkpoint_controlle.Prelude.{
  ℕ, String, List, Option, ◌≡◌, ◌≢◌, ◌⊎◌, ◌<>◌, ◌==◌, inr, refl, false, true, none, some, [], ◌∷◌,
}
use pod_checkpoint_controlle.Go.Flow.{finished, requeue_in}
use pod_checkpoint_controlle.Go.Errors.{GoError, ok}
use pod_checkpoint_controlle.Api.Meta.{ObjectKey, named, Container, Pod, running}
use pod_checkpoint_controlle.Api.Containers.{ContainerCheckpoint, ContainerCheckpointContent}
use pod_checkpoint_controlle.Api.Objects.{container_checkpoint, container_checkpoint_content}
use pod_checkpoint_controlle.Kube.Table.{store, settle}
use pod_checkpoint_controlle.Kube.Memory.{
  Memory, empty, empty_table, memory_kube, memory_kube-Serves, cluster-Serves, contains,
}
use pod_checkpoint_controlle.Prelude.Dict.{index}
use pod_checkpoint_controlle.Containers.{target_node, storage_location, new_content}
use pod_checkpoint_controlle.Api.Migrations.{PodMigration, pending}
use pod_checkpoint_controlle.Pods.Members.{fill_in}
use pod_checkpoint_controlle.Migrations.{new_checkpoint}
use pod_checkpoint_controlle.Sidecar.Kubelet.{create_checkpoint}
use pod_checkpoint_controlle.Sidecar.Kubelet.Polls.{create_checkpoint-exclusive}
use pod_checkpoint_controlle.Sidecar.Transfer.{transfer_checkpoint}
use pod_checkpoint_controlle.Sidecar.Transfer.Failures.{transfer_checkpoint_fails}
use pod_checkpoint_controlle.Sidecar.Manager.{CheckpointReconciler}
use pod_checkpoint_controlle.Sidecar.Host.{HttpRequest, Host}
use pod_checkpoint_controlle.Sidecar.Server.{upload_handler}
use pod_checkpoint_controlle.Sidecar.Server.Uploads.{Tells, upload_handler-Tells}
use pod_checkpoint_controlle.Sidecar.Reconciler.{sidecar_finalizer, target_of_location, reconcile}
use pod_checkpoint_controlle.Sidecar.Location.{
  storage_location-read, target_of_location-new_checkpoint,
}
use pod_checkpoint_controlle.Sidecar.Deletion.{released, IsApart, reconcile-drops}
use pod_checkpoint_controlle.Sidecar.Attempts.{reconcile-waits}
use pod_checkpoint_controlle.Sidecar.Offline.{offline_host, offline_host-BacksOff}

-- A checkpoint with or without annotations.
abbrev asking : Option (List (String × String)) → ContainerCheckpoint
asking annotations = record {
  metadata = record (named "shop" "web-app") { annotations = annotations };
  spec = record {
    source = record {
      pod_name = some "web";
      container_name = some "app";
      container_checkpoint_content_name = none;
    };
    deletion_policy = "Delete";
  };
  status = record {
    bound_container_checkpoint_content_name = none;
    ready_to_restore = false;
    error_message = "";
    checkpoint_time = none;
  };
}

storage_location-read_example :
    ((t : String) × (index target_node none ≡ some t)
      × ((t == "") ≡ false)
      × (storage_location (asking none) ≡ "node://" <> t)
      × (target_of_location (storage_location (asking none)) ≡ t))
    ⊎ (((index target_node none ≡ none) ⊎ (index target_node none ≡ some ""))
        × (storage_location (asking none) ≡ "local")
        × (target_of_location (storage_location (asking none)) ≡ "local"))
storage_location-read_example = storage_location-read (asking none)

-- A migration of the pod "web" to the node "n2".
abbrev move : PodMigration
move = record {
  metadata = named "shop" "move";
  spec = record { source_pod_name = "web"; target_node = "n2" };
  status = record {
    phase = pending;
    message = "";
    bound_checkpoint_name = "";
    restored_pod_name = "";
  };
}

abbrev app : Container
app = record { name = "app"; other = "" }

abbrev web : Pod
web = record {
  metadata = named "shop" "web";
  spec = record {
    containers = app ∷ [];
    node_name = "n1";
    node_selector = none;
    affinity = none;
    other = "";
  };
  status = record { phase = running; pod_ip = "10.0.0.1" };
}

target_of_location-new_checkpoint_example :
    target_of_location
      (new_content (fill_in (new_checkpoint move) web app (asking none))).spec.storage_location
    ≡ "n2"
target_of_location-new_checkpoint_example =
    target_of_location-new_checkpoint move web app (asking none) refl

create_checkpoint-exclusive_example :
    let r = (create_checkpoint (offline_host Memory) "n1" "shop" "web" "app" empty).0 in
    ((r.1 ≡ none) × (f : String) × (fs : List String) × (r.0 ≡ f ∷ fs))
    ⊎ ((r.0 ≡ []) × (e : GoError) × (r.1 ≡ some e))
create_checkpoint-exclusive_example =
    create_checkpoint-exclusive (offline_host Memory) (offline_host-BacksOff Memory) "n1" "shop"
      "web" "app" empty

transfer_checkpoint_fails_example :
    (transfer_checkpoint memory_kube (offline_host Memory) "web.tar" "n2" empty).0 ≢ none
transfer_checkpoint_fails_example =
    transfer_checkpoint_fails memory_kube (offline_host Memory) "web.tar" "n2" (inr (λ q t. tt))
      empty

-- A content that was begun at a time, to be stored on the node "n2".
abbrev begun : Option ℕ → ContainerCheckpointContent
begun at = record {
  metadata = named "" "web-app";
  spec = record {
    container_checkpoint_ref = some (record { name = "web-app"; namespace = "shop" });
    deletion_policy = "Delete";
    storage_location = "node://n2";
  };
  status = record { ready_to_restore = false; error_message = ""; checkpoint_time = at };
}

abbrev here : CheckpointReconciler
here = record {
  checkpoint_mgr = record {
    checkpoint_dir = "/var/lib/kubelet/checkpoints";
    node_name = "n1";
    http_server = record {
      checkpoint_dir = "/var/lib/kubelet/checkpoints";
      port = "8081";
      started = true;
    };
  };
  node_name = "n1";
}

-- A content that has its finalizer and was begun, and its parent.
abbrev waiting : ContainerCheckpointContent
waiting = record (begun (some 0)) {
  metadata = record (named "" "web-app") { finalizers = sidecar_finalizer ∷ [] };
}

abbrev with_waiting : Memory
with_waiting = record empty {
  table =
      store container_checkpoint_content (record { namespace = ""; name = "web-app" })
        (some waiting)
        (store container_checkpoint (record { namespace = "shop"; name = "web-app" })
          (some (asking none)) empty_table);
}

reconcile-waits_example :
    let r =
      reconcile memory_kube
        (offline_host Memory)
        here
        (record { namespace = ""; name = "web-app" })
        with_waiting in
    (r.0 ≡ requeue_in 299999999999) × (r.1.table ≡ with_waiting.table)
unfolding cluster-Serves contains
reconcile-waits_example =
    reconcile-waits memory_kube memory_kube-Serves waiting (asking none) with_waiting
      (offline_host Memory) here refl refl refl refl
      {ref = record { name = "web-app"; namespace = "shop" }} refl refl {pod_name = "web"}
      {container_name = "app"} refl refl refl {begin = 0} {now = 1} refl refl refl

-- A form with a file of ten bytes.
abbrev receiving : Host Memory
receiving = record (offline_host Memory) {
  form_file = λ request field s. (ok (record { handle = 4; filename = "web.tar"; size = 10 }), s);
}

abbrev post : HttpRequest
post = record {
  method = "POST";
  url = "/upload";
  body = "bytes";
  content_type = "multipart/form-data";
}

upload_handler-Tells_example :
    Tells receiving here.checkpoint_mgr.http_server post empty
      (upload_handler receiving here.checkpoint_mgr.http_server post empty).0
upload_handler-Tells_example =
    upload_handler-Tells receiving here.checkpoint_mgr.http_server post empty

-- A content that is being deleted, of a pod on another node.
abbrev dying : ContainerCheckpointContent
dying = record (begun (some 0)) {
  metadata = record (named "" "web-app") {
    finalizers = sidecar_finalizer ∷ [];
    deletion_timestamp = some 7;
  };
}

abbrev dying_key : ObjectKey
dying_key = record { namespace = ""; name = "web-app" }

abbrev with_dying : Memory
with_dying = record empty {
  table = store container_checkpoint_content dying_key (some dying) empty_table;
}

offline_host-IsApart : IsApart memory_kube memory_kube-Serves (offline_host Memory)
unfolding cluster-Serves
offline_host-IsApart = record { globs = λ _ _. refl; removes = λ _ _. refl }

reconcile-drops_example :
    (w : ℕ) × ((reconcile memory_kube (offline_host Memory) here dying_key with_dying).0 ≡ finished)
    × ((reconcile memory_kube (offline_host Memory) here dying_key with_dying).1.table
        ≡ store container_checkpoint_content dying_key
            (settle container_checkpoint_content w (released memory_kube dying))
            with_dying.table)
unfolding cluster-Serves contains
reconcile-drops_example =
    reconcile-drops memory_kube memory_kube-Serves (offline_host Memory) offline_host-IsApart here
      dying with_dying refl refl {at = 7} refl refl
