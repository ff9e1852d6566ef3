-- ===== src/Examples/Pods.antt =====
-- The theorems on internal/controller/podcheckpoint_controller.go at concrete inputs.
use pod_checkpoint_controlle.Prelude.{
  String, ℕ, ◌≡◌, ◌≢◌, refl, false, true, none, some, [], ◌∷◌, arith,
}
use pod_checkpoint_controlle.Go.Flow.{requeue_in, next, finished, reply_of, answer}
use pod_checkpoint_controlle.Go.Errors.{seconds, GoError, is_conflict}
use pod_checkpoint_controlle.Api.Meta.{key_of, ObjectKey, named, Container, Pod, running}
use pod_checkpoint_controlle.Api.Containers.{ContainerCheckpoint}
use pod_checkpoint_controlle.Api.Pods.{PodCheckpoint, PodCheckpointContent}
use pod_checkpoint_controlle.Api.Objects.{
  pod, pod_checkpoint_content, pod_checkpoint, container_checkpoint,
}
use pod_checkpoint_controlle.Kube.Table.{stamped, settle, store}
use pod_checkpoint_controlle.Kube.Memory.{
  Memory, empty, empty_table, memory_kube, memory_kube-Serves, cluster-Serves, contains,
}
use pod_checkpoint_controlle.Pods.{pc_finalizer, new_content}
use pod_checkpoint_controlle.Pods.Creation.{IsPrepared}
use pod_checkpoint_controlle.Pods.Growth.{all_asking, Grows, ensure_members_lem}
use pod_checkpoint_controlle.Pods.Completion.{IsComplete, reconcile-completes}
use pod_checkpoint_controlle.Pods.Conclusion.{conclude-ready}
use pod_checkpoint_controlle.Pods.Unready.{unready, unready_content, conclude-unready}
use pod_checkpoint_controlle.Pods.Beginning.{IsBegun, reconcile-makes_members}
use pod_checkpoint_controlle.Pods.Reconcile.{reconcile}
use pod_checkpoint_controlle.Pods.Deletion.{released, reconcile-clears}
use pod_checkpoint_controlle.Kube.Laws.{doomed}
use pod_checkpoint_controlle.Pods.Members.{member_object, ensure_members, aggregate}
use pod_checkpoint_controlle.Pods.Aggregate.{aggregate_lem}
use pod_checkpoint_controlle.Pods.Status.{conclude}
use pod_checkpoint_controlle.Pods.Stale.{conclude-stale}

-- A checkpoint of the pod "web", in a version.
abbrev whole : ℕ → PodCheckpoint
whole version = record {
  metadata = record (named "shop" "snap") { resource_version = version };
  spec = record {
    source = record { pod_name = some "web"; pod_checkpoint_content_name = none };
    deletion_policy = "Delete";
  };
  status = record {
    bound_pod_checkpoint_content_name = none;
    checkpoint_time = none;
    ready_to_restore = false;
    error_message = "";
  };
}

abbrev app : Container
app = record { name = "app"; other = "" }

abbrev log : Container
log = record { name = "log"; other = "" }

abbrev web : Pod
web = record {
  metadata = named "shop" "web";
  spec = record {
    containers = app ∷ log ∷ [];
    node_name = "n1";
    node_selector = none;
    affinity = none;
    other = "";
  };
  status = record { phase = running; pod_ip = "10.0.0.1" };
}

abbrev blank : ContainerCheckpoint
blank = member_object (whole 1) app

abbrev ready : ContainerCheckpoint
ready = record blank { status = record blank.status { ready_to_restore = true } }

abbrev member_key : ObjectKey
member_key = record { namespace = "shop"; name = "snap-app" }

-- The checkpoint of "app" is ready, and that of "log" is missing.
abbrev half : Memory
half = record empty { table = store container_checkpoint member_key (some ready) empty_table }

aggregate_lem_example :
    ((aggregate memory_kube (whole 1) (app ∷ log ∷ []) true half).0 ≡ (false, ""))
    × ((aggregate memory_kube (whole 1) (app ∷ log ∷ []) true half).1.table ≡ half.table)
unfolding cluster-Serves
aggregate_lem_example =
    aggregate_lem memory_kube memory_kube-Serves (whole 1) (app ∷ log ∷ []) true half

abbrev pod_checkpoint_key : ObjectKey
pod_checkpoint_key = record { namespace = "shop"; name = "snap" }

abbrev rewritten : Memory
rewritten = record empty {
  table = store pod_checkpoint pod_checkpoint_key (some (whole 2)) empty_table;
}

one_is_not_two : (whole 1).metadata.resource_version ≢ (whole 2).metadata.resource_version
one_is_not_two = λ e. omega (arith, e)

conclude-stale_example :
    (e : GoError) × (is_conflict e ≡ true)
    × ((answer
          (conclude memory_kube (whole 1) (new_content (whole 1) "web" web) true "" rewritten)).0
        ≡ reply_of (some e))
    × ((answer (
          conclude memory_kube
            (whole 1)
            (new_content (whole 1) "web" web)
            true
            ""
            rewritten)).1.table
        ≡ rewritten.table)
unfolding cluster-Serves
conclude-stale_example =
    conclude-stale memory_kube memory_kube-Serves (whole 1) (whole 2)
      (new_content (whole 1) "web" web) true "" rewritten refl one_is_not_two

-- A checkpoint that is being deleted, with a policy, and its content.
abbrev dying : String → PodCheckpoint
dying policy = record (whole 1) {
  metadata = record (whole 1).metadata {
    finalizers = pc_finalizer ∷ [];
    deletion_timestamp = some 7;
  };
  spec = record (whole 1).spec { deletion_policy = policy };
  status = record (whole 1).status { bound_pod_checkpoint_content_name = some "snap-pcc" };
}

abbrev content_key : ObjectKey
content_key = record { namespace = ""; name = "snap-pcc" }

abbrev deleting : String → Memory
deleting policy = record empty {
  table =
      store pod_checkpoint_content content_key (some (new_content (whole 1) "web" web))
        (store pod_checkpoint pod_checkpoint_key (some (dying policy)) empty_table);
}

reconcile-clears_example :
    (v w time : ℕ) × ((reconcile memory_kube pod_checkpoint_key (deleting "Delete")).0 ≡ finished)
    × ((reconcile memory_kube pod_checkpoint_key (deleting "Delete")).1.table
        ≡ store pod_checkpoint pod_checkpoint_key
            (settle pod_checkpoint w (released memory_kube (dying "Delete")))
            (store pod_checkpoint_content content_key
              (settle pod_checkpoint_content v
                (doomed pod_checkpoint_content time (new_content (whole 1) "web" web)))
              (deleting "Delete").table))
unfolding cluster-Serves contains
reconcile-clears_example =
    reconcile-clears memory_kube memory_kube-Serves (dying "Delete") (deleting "Delete") refl
      {at = 7} refl refl refl {name = "snap-pcc"} refl {content = new_content (whole 1) "web" web}
      refl

abbrev source_key : ObjectKey
source_key = record { namespace = "shop"; name = "web" }

-- A checkpoint that is new but for its finalizer, and its pod.
abbrev guarded : PodCheckpoint
guarded = record (whole 1) {
  metadata = record (whole 1).metadata { finalizers = pc_finalizer ∷ [] };
}

abbrev asked : Memory
asked = record empty {
  table =
      store pod source_key (some web)
        (store pod_checkpoint pod_checkpoint_key (some guarded) empty_table);
}

guarded-IsPrepared : IsPrepared memory_kube asked.table guarded web
unfolding contains
guarded-IsPrepared = record {
  stored = refl;
  live = refl;
  guarded = refl;
  dynamic = refl;
  pod_name = "web";
  pod_named = refl;
  pod_stored = refl;
  unbound = refl;
}

abbrev content : PodCheckpointContent
content = new_content (whole 1) "web" web

-- The checkpoint and its content as they were read.
abbrev settled : Memory
settled = record empty {
  table =
      store pod_checkpoint_content content_key (some content)
        (store pod_checkpoint pod_checkpoint_key (some (whole 1)) empty_table);
}

conclude-ready_example :
    (t v w : ℕ) × ((answer (conclude memory_kube (whole 1) content true "" settled)).0 ≡ finished)
    × ((answer (conclude memory_kube (whole 1) content true "" settled)).1.table
        ≡ store pod_checkpoint_content
            (key_of content.metadata)
            (some (
              stamped pod_checkpoint_content w (record content {
                status = record {
                  checkpoint_time = some t;
                  ready_to_restore = true;
                  error_message = "";
                };
              })))
            (store pod_checkpoint pod_checkpoint_key
              (some (
                stamped pod_checkpoint v (record (whole 1) {
                  status = record {
                    bound_pod_checkpoint_content_name = some "snap-pcc";
                    checkpoint_time = some t;
                    ready_to_restore = true;
                    error_message = "";
                  };
                })))
              settled.table))
unfolding cluster-Serves new_content
conclude-ready_example =
    conclude-ready memory_kube memory_kube-Serves (whole 1) content settled refl refl refl ""

conclude-unready_example :
    (v w : ℕ) × ((answer (conclude memory_kube (whole 1) content false "slow" settled)).0
      ≡ requeue_in (seconds 8))
    × ((answer (conclude memory_kube (whole 1) content false "slow" settled)).1.table
        ≡ store pod_checkpoint_content
            (key_of content.metadata)
            (some (stamped pod_checkpoint_content w (unready_content "slow" content)))
            (store pod_checkpoint pod_checkpoint_key
              (some (stamped pod_checkpoint v (unready "slow" (whole 1))))
              settled.table))
unfolding cluster-Serves new_content
conclude-unready_example =
    conclude-unready memory_kube memory_kube-Serves (whole 1) content settled refl refl refl "slow"

-- The checkpoint of "app" is there, and that of "log" is not.
ensure_members_lem_example :
    ((ensure_members memory_kube (whole 1) web (app ∷ log ∷ []) half).0 ≡ next tt)
    × (all_asking
          (ensure_members memory_kube (whole 1) web (app ∷ log ∷ []) half).1.table
          (whole 1)
          (app ∷ log ∷ [])
        ≡ true)
    × Grows half.table (ensure_members memory_kube (whole 1) web (app ∷ log ∷ []) half).1.table
unfolding cluster-Serves
ensure_members_lem_example =
    ensure_members_lem memory_kube memory_kube-Serves (whole 1) web (app ∷ log ∷ []) half

-- The guarded checkpoint with its content, and both containers' checkpoints.
abbrev all_there : Memory
all_there = record empty {
  table = store container_checkpoint member_key (some ready) (
      store container_checkpoint (record { namespace = "shop"; name = "snap-log" }) (some ready)
        (store pod_checkpoint_content content_key (some content) asked.table));
}

all_there-IsPrepared : IsPrepared memory_kube all_there.table guarded web
unfolding contains
all_there-IsPrepared = record {
  stored = refl;
  live = refl;
  guarded = refl;
  dynamic = refl;
  pod_name = "web";
  pod_named = refl;
  pod_stored = refl;
  unbound = refl;
}

reconcile-completes_example :
    IsComplete memory_kube memory_kube-Serves guarded web all_there.table
      (reconcile memory_kube pod_checkpoint_key all_there)
unfolding cluster-Serves new_content
reconcile-completes_example =
    reconcile-completes memory_kube memory_kube-Serves guarded web content all_there
      all_there-IsPrepared refl refl refl

-- The guarded checkpoint with its content, and no container's checkpoint.
abbrev none_there : Memory
none_there = record empty {
  table = store pod_checkpoint_content content_key (some content) asked.table;
}

none_there-IsPrepared : IsPrepared memory_kube none_there.table guarded web
unfolding contains
none_there-IsPrepared = record {
  stored = refl;
  live = refl;
  guarded = refl;
  dynamic = refl;
  pod_name = "web";
  pod_named = refl;
  pod_stored = refl;
  unbound = refl;
}

reconcile-makes_members_example :
    IsBegun memory_kube memory_kube-Serves guarded web content app
      (log ∷ [])
      refl
      none_there.table
      (reconcile memory_kube pod_checkpoint_key none_there)
unfolding cluster-Serves new_content
reconcile-makes_members_example =
    reconcile-makes_members memory_kube memory_kube-Serves guarded web content app (log ∷ []) refl
      none_there none_there-IsPrepared refl refl ((refl, tt), (tt, tt))
      (record { member = refl; content = refl }, (record { member = refl; content = refl }, tt))
