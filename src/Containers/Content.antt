-- ===== src/Containers/Content.antt =====
-- What `ContainerCheckpointReconciler.Reconcile` does with the content of a checkpoint that passes
-- its checks: it creates a missing one, waits for one that is not ready, and takes over the status
-- of one that is.
use pod_checkpoint_controlle.Prelude.{ℕ, String, ◌≡◌, refl, true, false, none, some, arith}
use pod_checkpoint_controlle.Go.Errors.{seconds}
use pod_checkpoint_controlle.Go.Flow.{finished, requeue_in}
use pod_checkpoint_controlle.Api.Meta.{ObjectKey, key_of, Pod}
use pod_checkpoint_controlle.Api.Containers.{ContainerCheckpoint, ContainerCheckpointContent}
use pod_checkpoint_controlle.Api.Objects.{container_checkpoint, container_checkpoint_content}
use pod_checkpoint_controlle.Kube.Client.{Kube}
use pod_checkpoint_controlle.Kube.Table.{find, store, stamped}
use pod_checkpoint_controlle.Kube.Laws.{Serves, admitted}
use pod_checkpoint_controlle.Kube.Sequential.{get-found, get-missing, status_loop}
use pod_checkpoint_controlle.Containers.{
  cluster_key, mirrored, new_content, reconcile, get_or_create_content, mirror_status,
}
use pod_checkpoint_controlle.Containers.Validated.{
  IsValidated, after_pod, table-after_pod, reconcile-IsValidated,
}

module _ (K : Kube) (L : Serves K) (cc : ContainerCheckpoint) (p : Pod) (s : K.State)
    (v : IsValidated K (L.table s) cc p)
    (unbound : cc.status.bound_container_checkpoint_content_name ≡ none) where
  abbrev content_key : ObjectKey
  content_key = cluster_key cc.metadata.name

  abbrev before : K.State
  before = after_pod K L cc p s v

  abbrev asked : K.State
  asked = (K.get container_checkpoint_content content_key before).1

  table-asked : L.table asked ≡ L.table s
  table-asked = rw (L.get-table, table-after_pod K L cc p s v) refl

  -- Of a stored checkpoint that passes the steps 1 to 6 and is not bound yet, with a server that
  -- serves the run alone: a checkpoint whose content is there and ready is bound to it and takes
  -- over its readiness, error and time; nothing else changes and no requeue is asked for.
  pub reconcile-mirrored :
      (content : ContainerCheckpointContent)
      → find (L.table s) container_checkpoint_content content_key ≡ some content
      → content.status.ready_to_restore ≡ true
      → (w : ℕ) × ((reconcile K (key_of cc.metadata) s).0 ≡ finished)
        × (L.table (reconcile K (key_of cc.metadata) s).1
            ≡ store container_checkpoint
                (key_of cc.metadata)
                (some (
                  stamped container_checkpoint w (record cc {
                    status = record {
                      bound_container_checkpoint_content_name = some cc.metadata.name;
                      ready_to_restore = true;
                      error_message = content.status.error_message;
                      checkpoint_time = content.status.checkpoint_time;
                    };
                  })))
                (L.table s))
  unfolding get_or_create_content mirror_status
  reconcile-mirrored content there ready =
      let found =
        get-found K L container_checkpoint_content content_key content before
          (rw (table-after_pod K L cc p s v) there) in
      let loop =
        status_loop K L container_checkpoint cc (mirrored cc.metadata.name content) asked
          (rw table-asked v.stored) refl refl in
      (
        loop.0,
        ground (arith, reconcile-IsValidated K L cc p s v unbound, found, ready, loop.1),
        ground
            (arith, reconcile-IsValidated K L cc p s v unbound, found, ready, loop.2, table-asked),
      )

  -- Of a stored checkpoint that passes the steps 1 to 6 and is not bound yet, with a server that
  -- serves the run alone: while the content is not ready nothing changes, whatever error the
  -- content has, and the reconciler comes back in five seconds.
  pub reconcile-unready :
      (content : ContainerCheckpointContent)
      → find (L.table s) container_checkpoint_content content_key ≡ some content
      → content.status.ready_to_restore ≡ false
      → ((reconcile K (key_of cc.metadata) s).0 ≡ requeue_in (seconds 5))
        × (L.table (reconcile K (key_of cc.metadata) s).1 ≡ L.table s)
  unfolding get_or_create_content mirror_status
  reconcile-unready content there unready =
      let found =
        get-found K L container_checkpoint_content content_key content before
          (rw (table-after_pod K L cc p s v) there) in
      (
        ground (arith, reconcile-IsValidated K L cc p s v unbound, found, unready),
        ground (arith, reconcile-IsValidated K L cc p s v unbound, found, unready, table-asked),
      )

  -- Of a stored checkpoint that passes the steps 1 to 6 and is not bound yet, with a server that
  -- serves the run alone: a missing content is created, under the checkpoint's name, with the
  -- reference back to the checkpoint and its deletion policy; nothing else changes, and the
  -- reconciler comes back in five seconds.
  pub reconcile-creates :
      find (L.table s) container_checkpoint_content content_key ≡ none
      → (w : ℕ) × (uid : String) × ((reconcile K (key_of cc.metadata) s).0 ≡ requeue_in (seconds 5))
        × (L.table (reconcile K (key_of cc.metadata) s).1
            ≡ store container_checkpoint_content content_key
                (some (
                  stamped container_checkpoint_content w
                    (admitted container_checkpoint_content uid (new_content cc))))
                (L.table s))
  unfolding get_or_create_content mirror_status
  reconcile-creates absent =
      let lost =
        get-missing K L container_checkpoint_content content_key before
          (rw (table-after_pod K L cc p s v) absent) in
      let free : find (L.table asked) container_checkpoint_content content_key ≡ none =
        rw table-asked absent in
      let reason = L.missing_reason container_checkpoint_content content_key in
      (
        L.fresh asked,
        L.fresh_uid asked,
        ground (
          arith,
          reconcile-IsValidated K L cc p s v unbound,
          lost,
          reason,
          L.create-result container_checkpoint_content (new_content cc) asked free,
        ),
        ground (
          arith,
          reconcile-IsValidated K L cc p s v unbound,
          lost,
          reason,
          L.create-result container_checkpoint_content (new_content cc) asked free,
          L.create-table container_checkpoint_content (new_content cc) asked free,
          table-asked,
        ),
      )
