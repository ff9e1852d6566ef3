-- ===== src/Migrations/Refinement.antt =====
-- `PodMigrationReconciler.Reconcile` as a machine of its own, which knows nothing of an API server:
-- what a run makes of a migration, given which of the objects that it asks for exist.
use pod_checkpoint_controlle.Prelude.{
  ℕ, String, ◌≡◌, refl, ◌⊎◌, inl, inr, Bool, true, Option, none, some, is_some, List, [], ◌∷◌,
  Option-cases, Bool-cases,
}
use pod_checkpoint_controlle.Api.Meta.{key_of, Container, Pod}
use pod_checkpoint_controlle.Api.Pods.{PodCheckpoint}
use pod_checkpoint_controlle.Api.Migrations.{
  PodMigration, PodMigrationPhase, unset, pending, checkpointing, restoring, succeeded, failed,
  unknown,
}
use pod_checkpoint_controlle.Api.Objects.{pod_migration, pod_checkpoint, pod}
use pod_checkpoint_controlle.Kube.Client.{Kube}
use pod_checkpoint_controlle.Kube.Table.{Table, find, store, stamped, find-store}
use pod_checkpoint_controlle.Kube.Laws.{Serves}
use pod_checkpoint_controlle.Migrations.{
  checkpoint_name, restored_name, to_checkpointing, to_restoring, to_failed, reconcile,
}
use pod_checkpoint_controlle.Migrations.Phases.{
  checkpoint_key, bound_key, source_key, target_key, success, reconcile-begins, reconcile-adopts,
  reconcile-waits, reconcile-lost, reconcile-ready, reconcile-rests,
}
use pod_checkpoint_controlle.Migrations.Restore.{
  reconcile-sourceless, reconcile-fails, reconcile-restores, reconcile-restored,
}

-- What a user sees of a migration: its phase, the checkpoint it is bound to, the pod it names as
-- restored, and whether a pod of the restored pod's name runs.
pub record View : Type 0 where
  pub phase : PodMigrationPhase
  pub bound : String
  pub restored : String
  pub runs : Bool

-- The name of the checkpoint that exists under the name that a new one would get; whether the bound
-- one is ready; and the containers of the source pod.
pub record Facts : Type 0 where
  pub existing : Option String
  pub ready : Option Bool
  pub containers : Option (List Container)

-- A migration that begins binds its checkpoint, under the name of a new one unless one exists.
abbrev pub bind : String → Option String → View → View
bind new none v = record v { phase = checkpointing; bound = new }
bind new (some old) v = record v { phase = checkpointing; bound = old }

-- One that has a checkpoint waits until it is ready.
abbrev pub wait : Option Bool → View → View
wait (some true) v = record v { phase = restoring }
wait _ v = v

-- One that restores needs a source pod with a container.
abbrev pub restore : String → Option (List Container) → View → View
restore target none v = v
restore target (some []) v = record v { phase = failed }
restore target (some (_ ∷ _)) v = record v { phase = succeeded; restored = target; runs = true }

-- A run, for the names of the checkpoint and of the restored pod.
abbrev pub advance : String → String → Facts → PodMigrationPhase → View → View
advance new target f unset v = bind new f.existing v
advance new target f pending v = bind new f.existing v
advance new target f checkpointing v = wait f.ready v
advance new target f restoring v = restore target f.containers v
advance new target f _ v = v

abbrev name_of : Option PodCheckpoint → Option String
name_of none = none
name_of (some cp) = some cp.metadata.name

abbrev ready_of : Option PodCheckpoint → Option Bool
ready_of none = none
ready_of (some cp) = some cp.status.ready_to_restore

abbrev containers_of : Option Pod → Option (List Container)
containers_of none = none
containers_of (some p) = some p.spec.containers

abbrev pub view : PodMigration → Table → View
view pm t = record {
  phase = pm.status.phase;
  bound = pm.status.bound_checkpoint_name;
  restored = pm.status.restored_pod_name;
  runs = is_some (find t pod (target_key pm));
}

abbrev pub facts : PodMigration → Table → Facts
facts pm t = record {
  existing = name_of (find t pod_checkpoint (checkpoint_key pm));
  ready = ready_of (find t pod_checkpoint (bound_key pm));
  containers = containers_of (find t pod (source_key pm));
}

abbrev pub advanced : PodMigration → Table → View
advanced pm t =
    advance (checkpoint_name pm) (restored_name pm) (facts pm t) pm.status.phase (view pm t)

-- The migration is stored, under its key and with its spec, and looks as `advance` says.
pub record Refines (pm : PodMigration) (t u : Table) : Type 0 where
  pub now : PodMigration
  pub stored : find u pod_migration (key_of pm.metadata) ≡ some now
  pub same_key : key_of now.metadata ≡ key_of pm.metadata
  pub same_spec : now.spec ≡ pm.spec
  pub seen : view now u ≡ advanced pm t

module _ (K : Kube) (L : Serves K) (pm : PodMigration) (s : K.State)
    (stored : find (L.table s) pod_migration (key_of pm.metadata) ≡ some pm) where
  abbrev run : K.State
  run = (reconcile K (key_of pm.metadata) s).1

  kept :
      L.table run ≡ L.table s
      → advanced pm (L.table s) ≡ view pm (L.table s)
      → Refines pm (L.table s) (L.table run)
  kept e same = record {
    now = pm;
    stored = rw e stored;
    same_key = refl;
    same_spec = refl;
    seen = rw (e, same) refl;
  }

  moved :
      (w : ℕ) (pm' : PodMigration) (t : Table)
      → L.table run
        ≡ store pod_migration (key_of pm.metadata) (some (stamped pod_migration w pm')) t
      → key_of pm'.metadata ≡ key_of pm.metadata
      → pm'.spec ≡ pm.spec
      → view pm' t ≡ advanced pm (L.table s)
      → Refines pm (L.table s) (L.table run)
  moved w pm' t e same spec seen = record {
    now = stamped pod_migration w pm';
    stored =
        rw (e, find-store pod_migration (key_of pm.metadata) (some (stamped pod_migration w pm')) t)
          refl;
    same_key = same;
    same_spec = spec;
    seen = rw e seen;
  }

  from_pending :
      (pm.status.phase ≡ unset) ⊎ (pm.status.phase ≡ pending)
      → ((v : View)
          → advance (checkpoint_name pm) (restored_name pm) (facts pm (L.table s)) pm.status.phase v
            ≡ bind
                (checkpoint_name pm)
                (name_of (find (L.table s) pod_checkpoint (checkpoint_key pm)))
                v)
      → Refines pm (L.table s) (L.table run)
  from_pending phase binds =
      elim (Option-cases (find (L.table s) pod_checkpoint (checkpoint_key pm))) [
        | inl absent ↦
            let (v, w, uid, r, e) = reconcile-begins K L pm s stored phase absent in
            moved w (to_checkpointing (checkpoint_name pm) pm) _ e refl refl
              (rw (binds, absent) refl)
        | inr (cp, there) ↦
            let (w, r, e) = reconcile-adopts K L pm s stored phase cp there in
            moved w (to_checkpointing cp.metadata.name pm) _ e refl refl (rw (binds, there) refl)
      ]

  from_checkpointing : pm.status.phase ≡ checkpointing → Refines pm (L.table s) (L.table run)
  from_checkpointing phase = elim (Option-cases (find (L.table s) pod_checkpoint (bound_key pm))) [
    | inl absent ↦ kept (reconcile-lost K L pm s stored phase absent).1 (rw (phase, absent) refl)
    | inr (cp, there) ↦ elim (Bool-cases cp.status.ready_to_restore) [
      | inl ready ↦
          let (w, r, e) = reconcile-ready K L pm s stored phase cp there ready in
          moved w (to_restoring pm) _ e refl refl (rw (phase, there, ready) refl)
      | inr unready ↦
          kept (reconcile-waits K L pm s stored phase cp there unready).1
            (rw (phase, there, unready) refl)
    ]
  ]

  module _ (phase : pm.status.phase ≡ restoring) where
    from_source :
        (source : Pod) (there : find (L.table s) pod (source_key pm) ≡ some source)
        (l : List Container)
        → source.spec.containers ≡ l
        → Refines pm (L.table s) (L.table run)
    from_source source there [] bare =
        let (w, r, e) = reconcile-fails K L pm s stored phase source there bare in
        moved w (to_failed "source Pod has no containers" pm) _ e refl refl
          (rw (phase, there, bare) refl)
    from_source source there (c ∷ cs) first =
        elim (Option-cases (find (L.table s) pod (target_key pm))) [
          | inl absent ↦
              let (v, w, uid, r, e) =
                reconcile-restores K L pm s stored phase source there c cs first absent in
              moved w (success K pm pm) _ e refl refl
                (rw (phase, there, first, find-store pod (target_key pm) _ (L.table s)) refl)
          | inr (other, taken) ↦
              let (w, r, e) =
                reconcile-restored K L pm s stored phase source there c cs first other taken in
              moved w (success K pm pm) _ e refl refl (rw (phase, there, first, taken) refl)
        ]

    from_restoring : Refines pm (L.table s) (L.table run)
    from_restoring = elim (Option-cases (find (L.table s) pod (source_key pm))) [
      | inl absent ↦
          kept (reconcile-sourceless K L pm s stored phase absent).1 (rw (phase, absent) refl)
      | inr (source, there) ↦ from_source source there source.spec.containers refl
    ]

  from_phase : (p : PodMigrationPhase) → pm.status.phase ≡ p → Refines pm (L.table s) (L.table run)
  from_phase unset e = from_pending (inl e) (λ v. rw e refl)
  from_phase pending e = from_pending (inr e) (λ v. rw e refl)
  from_phase checkpointing e = from_checkpointing e
  from_phase restoring e = from_restoring e
  from_phase succeeded e = kept (reconcile-rests K L pm s stored (inl e)).1 (rw e refl)
  from_phase failed e = kept (reconcile-rests K L pm s stored (inr (inl e))).1 (rw e refl)
  from_phase (unknown text) e =
      kept (reconcile-rests K L pm s stored (inr (inr (text, e)))).1 (rw e refl)

  -- Of a stored migration, with a server that serves the run alone: whatever else is stored, a run
  -- leaves the migration stored, with its spec, and refines the machine `advance`: its phase, its
  -- bound checkpoint, the restored pod it names, and whether a pod of that name exists, are what
  -- `advance` makes of them from the objects that exist.
  pub reconcile-Refines : Refines pm (L.table s) (L.table run)
  reconcile-Refines = from_phase pm.status.phase refl
