-- ===== src/Migrations/Restore.antt =====
-- The last phase of `PodMigrationReconciler.Reconcile`, against a server that serves it alone: the
-- restored pod.
use pod_checkpoint_controlle.Prelude.{
  ℕ, String, ◌≡◌, refl, sym, ap, ◌∙◌, subst, none, some, List, [], ◌∷◌, arith,
}
use pod_checkpoint_controlle.Go.Errors.{GoError, already_exists, ok, err}
use pod_checkpoint_controlle.Go.Flow.{Reply, finished, answer}
use pod_checkpoint_controlle.Api.Meta.{key_of, Container, Pod}
use pod_checkpoint_controlle.Api.Migrations.{failed, PodMigration, restoring}
use pod_checkpoint_controlle.Api.Objects.{pod_migration, pod}
use pod_checkpoint_controlle.Kube.Client.{Kube}
use pod_checkpoint_controlle.Kube.Table.{find, store, stamped}
use pod_checkpoint_controlle.Kube.Laws.{Serves, admitted, position}
use pod_checkpoint_controlle.Kube.Sequential.{get-found, get-missing, status_loop}
use pod_checkpoint_controlle.Migrations.{to_failed, restored_pod, restore, reconcile}
use pod_checkpoint_controlle.Migrations.Phases.{source_key, target_key, success}

module _ (K : Kube) (L : Serves K) (pm : PodMigration) (s : K.State)
    (stored : find (L.table s) pod_migration (key_of pm.metadata) ≡ some pm)
    (phase : pm.status.phase ≡ restoring) where
  abbrev run : K.State
  run = (reconcile K (key_of pm.metadata) s).1

  abbrev after_get : K.State
  after_get = (K.get pod_migration (key_of pm.metadata) s).1

  abbrev after_pod : K.State
  after_pod = (K.get pod (source_key pm) after_get).1

  found : (K.get pod_migration (key_of pm.metadata) s).0 ≡ ok pm
  found = get-found K L pod_migration _ pm s stored

  read : L.table after_pod ≡ L.table s
  read = rw (L.get-table, L.get-table) refl

  -- Of a stored migration whose phase is `Restoring`, with a server that serves the run alone: if
  -- the source pod is missing, the run returns the server's error and changes nothing.
  pub reconcile-sourceless :
      find (L.table s) pod (source_key pm) ≡ none
      → ((reconcile K (key_of pm.metadata) s).0.error ≡ some (L.missing pod (source_key pm)))
        × (L.table run ≡ L.table s)
  unfolding reconcile
  reconcile-sourceless absent =
      let lost = get-missing K L pod (source_key pm) after_get (rw L.get-table absent) in
      (ground (arith, phase, found, lost), ground (arith, phase, found, lost, read))

  module _ (source : Pod) (there : find (L.table s) pod (source_key pm) ≡ some source) where
    seen : (K.get pod (source_key pm) after_get).0 ≡ ok source
    seen = get-found K L pod (source_key pm) source after_get (rw L.get-table there)

    reconcile-restore :
        reconcile K (key_of pm.metadata) s
        ≡ answer (restore K pm source source.spec.containers after_pod)
    unfolding reconcile
    reconcile-restore = ground (arith, phase, found, seen)

    -- What holds of `restore` on the source pod's containers holds of the run.
    of_restore :
        {l : List Container}
        → source.spec.containers ≡ l
        → (P : Reply × K.State → Type 0) → P (answer (restore K pm source l after_pod))
        → P (reconcile K (key_of pm.metadata) s)
    of_restore e P h =
        subst P (sym (reconcile-restore ∙ ap (λ l. answer (restore K pm source l after_pod)) e)) h

    -- The run ends with success or failure, and only the migration is written.
    abbrev Ends : PodMigration → Reply × K.State → Type 0
    Ends pm' r =
        (w : ℕ) × (r.0 ≡ finished)
        × (L.table r.1
            ≡ store pod_migration (key_of pm.metadata) (some (stamped pod_migration w pm'))
                (L.table s))

    bare_Ends :
        Ends
          (to_failed "source Pod has no containers" pm)
          (answer (restore K pm source [] after_pod))
    unfolding restore
    bare_Ends =
        let loop =
          status_loop K L pod_migration pm (to_failed "source Pod has no containers") after_pod
            (rw read stored) refl refl in
        (loop.0, ground (arith, loop.1), ground (arith, loop.2, read))

    -- Of a stored migration whose phase is `Restoring`, with a server that serves the run alone: a
    -- source pod without containers brings the migration to the phase `Failed` with that message, the
    -- rest of it is kept, no pod is created, and no other run is asked for.
    pub reconcile-fails :
        source.spec.containers ≡ []
        → (w : ℕ) × ((reconcile K (key_of pm.metadata) s).0 ≡ finished)
          × (L.table run
              ≡ store pod_migration
                  (key_of pm.metadata)
                  (some (
                    stamped pod_migration w (record pm {
                      status = record pm.status {
                        phase = failed;
                        message = "source Pod has no containers";
                      };
                    })))
                  (L.table s))
    reconcile-fails bare =
        of_restore bare (Ends (to_failed "source Pod has no containers" pm)) bare_Ends

    module _ (c : Container) (cs : List Container) where
      position-restored_pod : position pod (restored_pod pm source c) ≡ (target_key pm)
      unfolding restored_pod
      position-restored_pod = refl

      -- The run ends with success and the restored pod.
      abbrev Restores : Reply × K.State → Type 0
      Restores r =
          (v w : ℕ) × (uid : String) × (r.0 ≡ finished)
          × (L.table r.1
              ≡ store pod_migration (key_of pm.metadata)
                  (some (stamped pod_migration w (success K pm pm)))
                  (store pod (target_key pm)
                    (some (stamped pod v (admitted pod uid (restored_pod pm source c))))
                    (L.table s)))

      absent_Restores :
          find (L.table s) pod (target_key pm) ≡ none
          → Restores (answer (restore K pm source (c ∷ cs) after_pod))
      unfolding restore
      absent_Restores absent =
          let new = restored_pod pm source c in
          let free : find (L.table after_pod) pod (position pod new) ≡ none =
            rw (position-restored_pod, read) absent in
          let made = L.create-result pod new after_pod free in
          let kept = L.create-table pod new after_pod free in
          let created : K.State = (K.create pod new after_pod).1 in
          let loop =
            status_loop K L pod_migration pm (success K pm) created (rw (kept, read) stored) refl
              refl in
          (
            L.fresh after_pod,
            loop.0,
            L.fresh_uid after_pod,
            ground (arith, made, loop.1),
            ground (arith, made, loop.2, kept, position-restored_pod, read),
          )

      -- Of a stored migration whose phase is `Restoring`, with a server that serves the run alone:
      -- if the source pod has a container and no pod has the restored pod's name, the restored pod is
      -- created, for the source pod's first container, and the migration has succeeded.
      pub reconcile-restores :
          source.spec.containers ≡ c ∷ cs
          → find (L.table s) pod (target_key pm) ≡ none
          → (v w : ℕ) × (uid : String) × ((reconcile K (key_of pm.metadata) s).0 ≡ finished)
            × (L.table run
                ≡ store pod_migration
                    (key_of pm.metadata)
                    (some (stamped pod_migration w (success K pm pm)))
                    (store pod
                      (target_key pm)
                      (some (stamped pod v (admitted pod uid (restored_pod pm source c))))
                      (L.table s)))
      reconcile-restores first absent = of_restore first Restores (absent_Restores absent)

      refused_Ends :
          (e : GoError)
          → (K.create pod (restored_pod pm source c) after_pod).0 ≡ err e
          → e.reason ≡ already_exists
          → L.table (K.create pod (restored_pod pm source c) after_pod).1 ≡ L.table after_pod
          → Ends (success K pm pm) (answer (restore K pm source (c ∷ cs) after_pod))
      unfolding restore
      refused_Ends e refused reason kept =
          let tried : K.State = (K.create pod (restored_pod pm source c) after_pod).1 in
          let loop =
            status_loop K L pod_migration pm (success K pm) tried (rw (kept, read) stored) refl
              refl in
          (
            loop.0,
            ground (arith, refused, reason, loop.1),
            ground (arith, refused, reason, loop.2, kept, read),
          )

      -- Of a stored migration whose phase is `Restoring`, with a server that serves the run alone:
      -- if the source pod has a container, a pod that has the restored pod's name already is left as
      -- it is, and the migration counts as succeeded.
      pub reconcile-restored :
          source.spec.containers ≡ c ∷ cs
          → (other : Pod) → find (L.table s) pod (target_key pm) ≡ some other
          → (w : ℕ) × ((reconcile K (key_of pm.metadata) s).0 ≡ finished)
            × (L.table run
                ≡ store pod_migration
                    (key_of pm.metadata)
                    (some (stamped pod_migration w (success K pm pm)))
                    (L.table s))
      reconcile-restored first other taken =
          let new = restored_pod pm source c in
          let taken' : find (L.table after_pod) pod (position pod new) ≡ some other =
            rw (position-restored_pod, read) taken in
          let (e, refused, reason, kept) = L.create_taken pod new other after_pod taken' in
          of_restore first (Ends (success K pm pm)) (refused_Ends e refused reason kept)
