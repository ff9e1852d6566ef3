-- ===== src/Migrations/Graph.antt =====
-- The phases of a migration: "Pending -> Checkpointing -> Restoring -> Succeeded/Failed", as the
-- comment above `Reconcile` has it.
use pod_checkpoint_controlle.Prelude.{
  String, ◌≡◌, refl, ap, Bool, true, false, Option, some, none, List, [], ◌∷◌,
}
use pod_checkpoint_controlle.Api.Meta.{ObjectKey, key_of, Container}
use pod_checkpoint_controlle.Api.Migrations.{
  PodMigration, PodMigrationPhase, unset, pending, checkpointing, restoring, succeeded, failed,
  unknown,
}
use pod_checkpoint_controlle.Api.Objects.{pod_migration}
use pod_checkpoint_controlle.Kube.Client.{Kube}
use pod_checkpoint_controlle.Kube.Table.{Table, find}
use pod_checkpoint_controlle.Kube.Laws.{Serves}
use pod_checkpoint_controlle.Migrations.{checkpoint_name, restored_name, reconcile}
use pod_checkpoint_controlle.Migrations.Refinement.{
  View, Facts, bind, wait, restore, advance, facts, view, reconcile-Refines,
}

-- The edges that a run may take; `stay` is a run that leaves the phase as it is.
pub data Edge : PodMigrationPhase → PodMigrationPhase → Type 0 where
  stay : {p : PodMigrationPhase} → Edge p p
  begin_unset : Edge unset checkpointing
  begin_pending : Edge pending checkpointing
  proceed : Edge checkpointing restoring
  succeed : Edge restoring succeeded
  fail : Edge restoring failed

bind-phase : (new : String) (o : Option String) (v : View) → (bind new o v).phase ≡ checkpointing
bind-phase new none v = refl
bind-phase new (some old) v = refl

wait-Edge :
    (o : Option Bool) (v : View) → v.phase ≡ checkpointing → Edge checkpointing (wait o v).phase
wait-Edge none v e = rw e stay
wait-Edge (some true) v e = proceed
wait-Edge (some false) v e = rw e stay

restore-Edge :
    (target : String) (o : Option (List Container)) (v : View)
    → v.phase ≡ restoring
    → Edge restoring (restore target o v).phase
restore-Edge target none v e = rw e stay
restore-Edge target (some []) v e = fail
restore-Edge target (some (c ∷ cs)) v e = succeed

-- The machine goes along the edges.
advance-Edge :
    (new target : String) (f : Facts) (p : PodMigrationPhase) (v : View)
    → v.phase ≡ p
    → Edge p (advance new target f p v).phase
advance-Edge new target f unset v e = rw (bind-phase new f.existing v) begin_unset
advance-Edge new target f pending v e = rw (bind-phase new f.existing v) begin_pending
advance-Edge new target f checkpointing v e = wait-Edge f.ready v e
advance-Edge new target f restoring v e = restore-Edge target f.containers v e
advance-Edge new target f succeeded v e = rw e stay
advance-Edge new target f failed v e = rw e stay
advance-Edge new target f (unknown text) v e = rw e stay

module _ (K : Kube) (L : Serves K) where
  -- A stored migration whose phase is reached from `p` by one edge.
  abbrev pub Follows : PodMigrationPhase → ObjectKey → Table → Type 0
  Follows p key t =
      (pm' : PodMigration) × (find t pod_migration key ≡ some pm')
      × Edge p pm'.status.phase
      × (key_of pm'.metadata ≡ key)

  module _ (pm : PodMigration) (s : K.State)
      (stored : find (L.table s) pod_migration (key_of pm.metadata) ≡ some pm) where
    abbrev run : K.State
    run = (reconcile K (key_of pm.metadata) s).1

    -- Of a stored migration, with a server that serves the run alone: whatever else is stored, a
    -- run leaves the migration stored, and its phase has stayed or has gone along one edge of the
    -- graph.
    pub reconcile-Edge : Follows pm.status.phase (key_of pm.metadata) (L.table run)
    reconcile-Edge =
        let r = reconcile-Refines K L pm s stored in
        let edge =
          advance-Edge (checkpoint_name pm) (restored_name pm) (facts pm (L.table s))
            pm.status.phase (view pm (L.table s)) refl in
        (r.now, r.stored, rw (ap (λ v. v.phase) r.seen) edge, r.same_key)
