-- ===== src/Examples/System.antt =====
-- The theorems on the sidecar's successful work, and on whole checkpoints, at concrete inputs: a node
-- "n1" from which the sidecar of the node "n2" is reached.
use pod_checkpoint_controlle.Prelude.{
  ℕ, ◌+◌, ◌≤◌, String, List, ◌==◌, ◌≡◌, refl, arith, false, true, none, some, [], ◌∷◌,
}
use pod_checkpoint_controlle.Go.Flow.{finished}
use pod_checkpoint_controlle.Go.Errors.{seconds}
use pod_checkpoint_controlle.Api.Meta.{ObjectKey, named, Container, Pod, running}
use pod_checkpoint_controlle.Api.Containers.{ContainerCheckpoint, ContainerCheckpointContent}
use pod_checkpoint_controlle.Api.Objects.{container_checkpoint, container_checkpoint_content, pod}
use pod_checkpoint_controlle.Kube.Client.{Kube}
use pod_checkpoint_controlle.Kube.Table.{Table, store, stamped}
use pod_checkpoint_controlle.Kube.Memory.{
  Memory, empty, empty_table, cluster, cluster-Serves, contains,
}
use pod_checkpoint_controlle.Prelude.Dict.{index}
use pod_checkpoint_controlle.Containers.{
  cc_finalizer, target_node, has_container, storage_location, reconcile as reconcile_checkpoint,
}
use pod_checkpoint_controlle.Containers.Validated.{IsValidated}
use pod_checkpoint_controlle.Sidecar.Manager.{CheckpointReconciler}
use pod_checkpoint_controlle.Sidecar.Kubelet.{create_checkpoint}
use pod_checkpoint_controlle.Sidecar.Transfer.{transfer_checkpoint, target_ip}
use pod_checkpoint_controlle.Sidecar.Reconciler.{
  sidecar_finalizer, target_of_location, trim_prefix, reconcile,
}
use pod_checkpoint_controlle.Sidecar.Steps.{IsDue}
use pod_checkpoint_controlle.Sidecar.Run.{reconcile-checkpoints}
use pod_checkpoint_controlle.Sidecar.Bounds.{transfer_checkpoint-bounded, create_checkpoint-bounded}
use pod_checkpoint_controlle.Sidecar.Online.{
  online_host, online_host-BacksOff, online_host-IsCounted, online_host-IsWorking,
}
use pod_checkpoint_controlle.System.Checkpoints.{checkpoint-completes}

abbrev pub app : Container
app = record { name = "app"; other = "" }

abbrev pub running_on : String → String → String → String → Pod
running_on namespace name node ip = record {
  metadata = named namespace name;
  spec = record {
    containers = app ∷ [];
    node_name = node;
    node_selector = none;
    affinity = none;
    other = "";
  };
  status = record { phase = running; pod_ip = ip };
}

abbrev pub web : Pod
web = running_on "shop" "web" "n1" "10.0.0.1"

abbrev pub sidecars : List Pod
sidecars =
    running_on "system" "sidecar-n1" "n1" "10.0.1.1"
    ∷ running_on "system" "sidecar-n2" "n2" "10.0.1.2"
    ∷ []

abbrev pub K : Kube
K = cluster sidecars

abbrev pub on_n1 : CheckpointReconciler
on_n1 = record {
  checkpoint_mgr = record {
    checkpoint_dir = "/var/lib/kubelet/checkpoints";
    node_name = "n1";
    http_server = record {
      checkpoint_dir = "/var/lib/kubelet/checkpoints";
      port = "8081";
      started = true;
    };
  };
  node_name = "n1";
}

-- Every request fails with the status 500.
transfer_checkpoint-bounded_example :
    ((transfer_checkpoint K (online_host 500) "web.tar" "n2" empty).1.sent ≤ empty.sent + 3)
    × ((transfer_checkpoint K (online_host 500) "web.tar" "n2" empty).1.slept
        ≤ empty.slept + seconds 6)
transfer_checkpoint-bounded_example =
    transfer_checkpoint-bounded K (online_host 500) (λ s. s.sent) (λ s. s.slept)
      (online_host-IsCounted 500 sidecars) "web.tar" "n2" empty

create_checkpoint-bounded_example :
    (create_checkpoint (online_host 500) "n1" "shop" "web" "app" empty).1.sent ≤ empty.sent + 5
create_checkpoint-bounded_example =
    create_checkpoint-bounded K (online_host 500) (λ s. s.sent) (λ s. s.slept)
      (online_host-IsCounted 500 sidecars) (online_host-BacksOff 500) (λ s. omega arith) "n1" "shop"
      "web" "app" empty

-- A checkpoint of the container "app" of the pod "web", to be stored on the node "n2".
abbrev pub asking : ContainerCheckpoint
asking = record {
  metadata = record (named "shop" "web-app") {
    finalizers = cc_finalizer ∷ [];
    annotations = some ((target_node, "n2") ∷ []);
  };
  spec = record {
    source = record {
      pod_name = some "web";
      container_name = some "app";
      container_checkpoint_content_name = none;
    };
    deletion_policy = "Delete";
  };
  status = record {
    bound_container_checkpoint_content_name = none;
    ready_to_restore = false;
    error_message = "";
    checkpoint_time = none;
  };
}

abbrev pub due : ContainerCheckpointContent
due = record {
  metadata = record (named "" "web-app") { finalizers = sidecar_finalizer ∷ [] };
  spec = record {
    container_checkpoint_ref = some (record { name = "web-app"; namespace = "shop" });
    deletion_policy = "Delete";
    storage_location = "node://n2";
  };
  status = record { ready_to_restore = false; error_message = ""; checkpoint_time = none };
}

abbrev pub key : ObjectKey
key = record { namespace = "shop"; name = "web-app" }

abbrev pub content_key : ObjectKey
content_key = record { namespace = ""; name = "web-app" }

abbrev asked : Table
asked =
    store pod (record { namespace = "shop"; name = "web" }) (some web)
      (store container_checkpoint key (some asking) empty_table)

abbrev pub holding : Table → Memory
holding t = record empty { table = t }

abbrev pub with_content : Memory
with_content = holding (store container_checkpoint_content content_key (some due) asked)

pub is_due : IsDue with_content.table on_n1 due asking web
is_due = record {
  placed = refl;
  stored = refl;
  live = refl;
  ref = record { name = "web-app"; namespace = "shop" };
  referred = refl;
  parent = refl;
  pod_name = "web";
  pod_named = refl;
  container_name = "app";
  container_named = refl;
  unready = refl;
  unbegun = refl;
  pod_stored = refl;
  here = refl;
  located = refl;
}

pub reached : (target_ip (target_of_location "node://n2") sidecars == "") ≡ false
unfolding target_ip target_of_location trim_prefix
reached = refl

reconcile-checkpoints_example :
    (t w : ℕ) × ((reconcile K (online_host 201) on_n1 content_key with_content).0 ≡ finished)
    × ((reconcile K (online_host 201) on_n1 content_key with_content).1.table
        ≡ store container_checkpoint_content content_key
            (some (
              stamped container_checkpoint_content w (record due {
                status = record {
                  ready_to_restore = true;
                  error_message = "";
                  checkpoint_time = some t;
                };
              })))
            with_content.table)
unfolding cluster-Serves contains
reconcile-checkpoints_example =
    reconcile-checkpoints K (cluster-Serves sidecars) (online_host 201) (online_host-BacksOff 201)
      on_n1 due "web.tar" []
      (online_host-IsWorking sidecars (target_of_location "node://n2") reached) asking web
      with_content is_due refl

is_valid : IsValidated K asked asking web
unfolding contains has_container
is_valid = record {
  stored = refl;
  live = refl;
  guarded = refl;
  dynamic = refl;
  pod_name = "web";
  pod_named = refl;
  container_name = "app";
  container_named = refl;
  pod_stored = refl;
  contained = refl;
}

-- Every sidecar can be reached from everywhere.
reached_of_annotation :
    (target_ip (target_of_location (storage_location asking)) sidecars == "") ≡ false
unfolding target_ip storage_location index target_of_location trim_prefix
reached_of_annotation = refl

checkpoint-completes_example :
    let s₁ = (reconcile_checkpoint K key (holding asked)).1 in
    let s₂ = (reconcile K (online_host 201) on_n1 content_key s₁).1 in
    (cc' : ContainerCheckpoint) × (content : ContainerCheckpointContent) × ((reconcile_checkpoint K
        key s₂).1.table
      ≡ store container_checkpoint key
          (some cc')
          (store container_checkpoint_content content_key (some content) asked))
    × (cc'.status.ready_to_restore ≡ true)
    × (cc'.status.error_message ≡ "")
    × (cc'.status.bound_container_checkpoint_content_name ≡ some "web-app")
    × ((reconcile_checkpoint K key s₂).0 ≡ finished)
unfolding cluster-Serves
checkpoint-completes_example =
    checkpoint-completes K (cluster-Serves sidecars) (online_host 201) (online_host-BacksOff 201)
      on_n1 "web.tar" [] asking web
      (online_host-IsWorking sidecars (target_of_location (storage_location asking))
        reached_of_annotation)
      refl refl (holding asked) is_valid refl
