-- ===== src/Migrations/Phases.antt =====
-- What one run of `PodMigrationReconciler.Reconcile` does in each phase, against a server that
-- serves it alone.
use pod_checkpoint_controlle.Prelude.{
  ℕ, String, ◌<>◌, ◌≡◌, refl, ◌⊎◌, inl, inr, true, false, none, some, arith,
}
use pod_checkpoint_controlle.Go.Errors.{ok, seconds}
use pod_checkpoint_controlle.Go.Flow.{finished, requeue_in}
use pod_checkpoint_controlle.Api.Meta.{ObjectKey, key_of}
use pod_checkpoint_controlle.Api.Pods.{PodCheckpoint}
use pod_checkpoint_controlle.Api.Migrations.{
  PodMigration, unset, pending, checkpointing, succeeded, failed, unknown,
}
use pod_checkpoint_controlle.Api.Objects.{pod_migration, pod_checkpoint}
use pod_checkpoint_controlle.Kube.Client.{Kube}
use pod_checkpoint_controlle.Kube.Table.{find, store, stamped}
use pod_checkpoint_controlle.Kube.Laws.{Serves, admitted}
use pod_checkpoint_controlle.Kube.Sequential.{get-found, get-missing, status_loop}
use pod_checkpoint_controlle.Migrations.{
  checkpoint_name, restored_name, new_checkpoint, with_metadata, to_checkpointing, to_restoring,
  to_succeeded, reconcile,
}

-- The object that `handlePending` creates: the checkpoint with the migration as its owner.
abbrev pub owned_checkpoint : {K : Kube} → Serves K → PodMigration → PodCheckpoint
owned_checkpoint L pm =
    with_metadata
      (record (new_checkpoint pm).metadata {
        owner_references = L.owners pm.metadata (new_checkpoint pm).metadata;
      })
      (new_checkpoint pm)

abbrev pub checkpoint_key : PodMigration → ObjectKey
checkpoint_key pm = record { namespace = pm.metadata.namespace; name = checkpoint_name pm }

abbrev pub source_key : PodMigration → ObjectKey
source_key pm = record { namespace = pm.metadata.namespace; name = pm.spec.source_pod_name }

abbrev pub bound_key : PodMigration → ObjectKey
bound_key pm = record { namespace = pm.metadata.namespace; name = pm.status.bound_checkpoint_name }

-- The key of the restored pod.
abbrev pub target_key : PodMigration → ObjectKey
target_key pm = record { namespace = pm.metadata.namespace; name = restored_name pm }

-- The change to a migration that has succeeded.
abbrev pub success : Kube → PodMigration → PodMigration → PodMigration
success K pm = to_succeeded (restored_name pm) (
    "Created restored Pod "
    <> K.quote (restored_name pm)
    <> " on node "
    <> K.quote pm.spec.target_node)

module _ (K : Kube) (L : Serves K) (pm : PodMigration) (s : K.State)
    (stored : find (L.table s) pod_migration (key_of pm.metadata) ≡ some pm) where
  abbrev run : K.State
  run = (reconcile K (key_of pm.metadata) s).1

  abbrev after_get : K.State
  after_get = (K.get pod_migration (key_of pm.metadata) s).1

  found : (K.get pod_migration (key_of pm.metadata) s).0 ≡ ok pm
  found = get-found K L pod_migration _ pm s stored

  read : L.table after_get ≡ L.table s
  read = L.get-table pod_migration (key_of pm.metadata) s

  -- Of a stored migration whose phase is empty or `Pending`, with a server that serves the run
  -- alone: if its checkpoint does not exist yet, it is created with the migration as its owner, the
  -- migration goes on to `Checkpointing`, bound to it, and the reconciler comes back in two
  -- seconds.
  pub reconcile-begins :
      (pm.status.phase ≡ unset) ⊎ (pm.status.phase ≡ pending)
      → find (L.table s) pod_checkpoint (checkpoint_key pm) ≡ none
      → (v w : ℕ) × (uid : String) × ((reconcile K (key_of pm.metadata) s).0
          ≡ requeue_in (seconds 2))
        × (L.table run
            ≡ store pod_migration
                (key_of pm.metadata)
                (some (stamped pod_migration w (to_checkpointing (checkpoint_name pm) pm)))
                (store pod_checkpoint
                  (checkpoint_key pm)
                  (some (
                    stamped pod_checkpoint v (admitted pod_checkpoint uid (owned_checkpoint L pm))))
                  (L.table s)))
  unfolding reconcile
  reconcile-begins phase absent =
      let lost = get-missing K L pod_checkpoint (checkpoint_key pm) after_get (rw read absent) in
      let asked : K.State = (K.get pod_checkpoint (checkpoint_key pm) after_get).1 in
      let asked_table = L.get-table pod_checkpoint (checkpoint_key pm) after_get in
      let free : find (L.table asked) pod_checkpoint (checkpoint_key pm) ≡ none =
        rw (asked_table, read) absent in
      let new = owned_checkpoint L pm in
      let made = L.create-result pod_checkpoint new asked free in
      let kept = L.create-table pod_checkpoint new asked free in
      let created : K.State = (K.create pod_checkpoint new asked).1 in
      let loop =
        status_loop K L pod_migration pm (to_checkpointing (checkpoint_name pm)) created
          (rw (kept, asked_table, read) stored) refl refl in
      let owner = L.set_controller_reference-eq pm.metadata (new_checkpoint pm).metadata refl in
      let reason = L.missing_reason pod_checkpoint (checkpoint_key pm) in
      (
        L.fresh asked,
        loop.0,
        L.fresh_uid asked,
        ground (arith, phase, found, lost, reason, owner, made, loop.1),
        ground (arith, phase, found, lost, reason, owner, made, loop.2, kept, asked_table, read),
      )

  -- Of a stored migration whose phase is empty or `Pending`, with a server that serves the run
  -- alone: if a checkpoint of the name that it would create exists, no other one is created, and
  -- the migration goes on to `Checkpointing`, bound to it.
  pub reconcile-adopts :
      (pm.status.phase ≡ unset) ⊎ (pm.status.phase ≡ pending)
      → (cp : PodCheckpoint) → find (L.table s) pod_checkpoint (checkpoint_key pm) ≡ some cp
      → (w : ℕ) × ((reconcile K (key_of pm.metadata) s).0 ≡ requeue_in (seconds 2))
        × (L.table run
            ≡ store pod_migration
                (key_of pm.metadata)
                (some (stamped pod_migration w (to_checkpointing cp.metadata.name pm)))
                (L.table s))
  unfolding reconcile
  reconcile-adopts phase cp there =
      let seen = get-found K L pod_checkpoint (checkpoint_key pm) cp after_get (rw read there) in
      let asked : K.State = (K.get pod_checkpoint (checkpoint_key pm) after_get).1 in
      let asked_table = L.get-table pod_checkpoint (checkpoint_key pm) after_get in
      let loop =
        status_loop K L pod_migration pm (to_checkpointing cp.metadata.name) asked
          (rw (asked_table, read) stored) refl refl in
      (
        loop.0,
        ground (arith, phase, found, seen, loop.1),
        ground (arith, phase, found, seen, loop.2, asked_table, read),
      )

  -- Of a stored migration whose phase is `Checkpointing`, with a server that serves the run alone:
  -- while the bound checkpoint is there and not ready, nothing changes, and the reconciler comes
  -- back in two seconds.
  pub reconcile-waits :
      pm.status.phase ≡ checkpointing
      → (cp : PodCheckpoint) → find (L.table s) pod_checkpoint (bound_key pm) ≡ some cp
      → cp.status.ready_to_restore ≡ false
      → ((reconcile K (key_of pm.metadata) s).0 ≡ requeue_in (seconds 2))
        × (L.table run ≡ L.table s)
  unfolding reconcile
  reconcile-waits phase cp there unready =
      let seen = get-found K L pod_checkpoint (bound_key pm) cp after_get (rw read there) in
      let asked_table = L.get-table pod_checkpoint (bound_key pm) after_get in
      (
        ground (arith, phase, found, seen, unready),
        ground (arith, phase, found, seen, unready, asked_table, read),
      )

  -- Of a stored migration whose phase is `Checkpointing`, with a server that serves the run alone:
  -- if the bound checkpoint is missing, the run returns the server's error and changes nothing.
  pub reconcile-lost :
      pm.status.phase ≡ checkpointing
      → find (L.table s) pod_checkpoint (bound_key pm) ≡ none
      → ((reconcile K (key_of pm.metadata) s).0.error
          ≡ some (L.missing pod_checkpoint (bound_key pm)))
        × (L.table run ≡ L.table s)
  unfolding reconcile
  reconcile-lost phase absent =
      let lost = get-missing K L pod_checkpoint (bound_key pm) after_get (rw read absent) in
      let asked_table = L.get-table pod_checkpoint (bound_key pm) after_get in
      (ground (arith, phase, found, lost), ground (arith, phase, found, lost, asked_table, read))

  -- Of a stored migration whose phase is `Checkpointing`, with a server that serves the run alone:
  -- once the bound checkpoint is ready, the migration goes on to `Restoring`, and nothing else
  -- changes.
  pub reconcile-ready :
      pm.status.phase ≡ checkpointing
      → (cp : PodCheckpoint) → find (L.table s) pod_checkpoint (bound_key pm) ≡ some cp
      → cp.status.ready_to_restore ≡ true
      → (w : ℕ) × ((reconcile K (key_of pm.metadata) s).0 ≡ finished)
        × (L.table run
            ≡ store pod_migration
                (key_of pm.metadata)
                (some (stamped pod_migration w (to_restoring pm)))
                (L.table s))
  unfolding reconcile
  reconcile-ready phase cp there ready =
      let seen = get-found K L pod_checkpoint (bound_key pm) cp after_get (rw read there) in
      let asked : K.State = (K.get pod_checkpoint (bound_key pm) after_get).1 in
      let asked_table = L.get-table pod_checkpoint (bound_key pm) after_get in
      let loop =
        status_loop K L pod_migration pm to_restoring asked (rw (asked_table, read) stored) refl
          refl in
      (
        loop.0,
        ground (arith, phase, found, seen, ready, loop.1),
        ground (arith, phase, found, seen, ready, loop.2, asked_table, read),
      )

  -- Of a stored migration, with a server that serves the run alone: a migration that has ended, or
  -- whose phase is none of the program's, is left as it is.
  pub reconcile-rests :
      (pm.status.phase ≡ succeeded)
        ⊎ ((pm.status.phase ≡ failed) ⊎ ((text : String) × (pm.status.phase ≡ unknown text)))
      → ((reconcile K (key_of pm.metadata) s).0 ≡ finished) × (L.table run ≡ L.table s)
  unfolding reconcile
  reconcile-rests (inl e) = (ground (arith, e, found), ground (arith, e, found, read))
  reconcile-rests (inr (inl e)) = (ground (arith, e, found), ground (arith, e, found, read))
  reconcile-rests (inr (inr (text, e))) = (ground (arith, e, found), ground (arith, e, found, read))
