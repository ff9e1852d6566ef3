-- ===== src/Migrations/Changes.antt =====
-- How often the migration controller changes a phase.
use pod_checkpoint_controlle.Prelude.{ℕ, suc, ◌+◌, ◌≤◌, ◌≡◌, ◌≢◌, refl, ◌∙◌, some, arith}
use pod_checkpoint_controlle.Api.Meta.{ObjectKey, key_of}
use pod_checkpoint_controlle.Api.Migrations.{
  PodMigration, PodMigrationPhase, unset, pending, checkpointing, restoring, succeeded, failed,
  unknown,
}
use pod_checkpoint_controlle.Api.Objects.{pod_migration}
use pod_checkpoint_controlle.Kube.Client.{Kube}
use pod_checkpoint_controlle.Kube.Table.{find}
use pod_checkpoint_controlle.Kube.Laws.{Serves}
use pod_checkpoint_controlle.Migrations.{reconcile}
use pod_checkpoint_controlle.Migrations.Graph.{
  Edge, stay, begin_unset, begin_pending, proceed, succeed, fail,
}
use pod_checkpoint_controlle.Migrations.Runs.{rank, edge_at, Edge-rank}

rank_bounded : (p : PodMigrationPhase) → rank p ≤ 3
rank_bounded unset = omega arith
rank_bounded pending = omega arith
rank_bounded checkpointing = omega arith
rank_bounded restoring = omega arith
rank_bounded succeeded = omega arith
rank_bounded failed = omega arith
rank_bounded (unknown text) = omega arith

-- An edge that changes the phase leads on.
Edge-changes : {p q : PodMigrationPhase} → Edge p q → p ≢ q → suc (rank p) ≤ rank q
Edge-changes stay differs = absurd (differs refl)
Edge-changes begin_unset differs = omega arith
Edge-changes begin_pending differs = omega arith
Edge-changes proceed differs = omega arith
Edge-changes succeed differs = omega arith
Edge-changes fail differs = omega arith

module _ (K : Kube) (L : Serves K) (key : ObjectKey) where
  -- The states that runs of the controller lead to from `s`, of which some number change the
  -- phase. Between two runs anything may happen that leaves this migration alone.
  pub data Changes (s : K.State) : ℕ → K.State → Type 0 where
    begun : Changes s 0 s
    ran : {n : ℕ} {t : K.State} → Changes s n t → Changes s n (reconcile K key t).1
    changed :
        {n : ℕ} {t : K.State}
        → Changes s n t
        → (before after : PodMigration) → find (L.table t) pod_migration key ≡ some before
        → find (L.table (reconcile K key t).1) pod_migration key ≡ some after
        → before.status.phase ≢ after.status.phase
        → Changes s (suc n) (reconcile K key t).1
    left_alone :
        {n : ℕ} {t u : K.State}
        → Changes s n t
        → find (L.table u) pod_migration key ≡ find (L.table t) pod_migration key
        → Changes s n u

  same_phase :
      {t : K.State} {a b : PodMigration}
      → find (L.table t) pod_migration key ≡ some a
      → find (L.table t) pod_migration key ≡ some b
      → a.status.phase ≡ b.status.phase
  same_phase h k = cc (h, k)

  -- What is stored after `n` changes has come at least `n` steps further.
  abbrev Further : PodMigrationPhase → ℕ → K.State → Type 0
  Further p n t =
      (pm : PodMigration) × (find (L.table t) pod_migration key ≡ some pm)
      × (key_of pm.metadata ≡ key)
      × (n + rank p ≤ rank pm.status.phase)

  Further-Changes :
      (p : PodMigrationPhase) {s : K.State} {n : ℕ} {t : K.State}
      → Changes s n t
      → Further p 0 s
      → Further p n t
  Further-Changes p begun h = h
  Further-Changes p (ran {t = t} c) h =
      let (pm, there, same, far) = Further-Changes p c h in
      let (pm', there', edge, same') = edge_at K L key pm t same there in
      let further = Edge-rank K L key edge in (pm', there', same', omega (arith, far, further))
  Further-Changes p (changed {t = t} c before after was is differs) h =
      let (pm, there, same, far) = Further-Changes p c h in
      let (pm', there', edge, same') = edge_at K L key pm t same there in
      let further =
        Edge-changes edge (λ e. differs (same_phase was there ∙ e ∙ same_phase there' is)) in
      (pm', there', same', omega (arith, far, further))
  Further-Changes p (left_alone c e) h =
      let (pm, there, same, far) = Further-Changes p c h in (pm, e ∙ there, same, far)

  -- Of a stored migration, with a server that serves each run alone: however often the controller
  -- runs, and whatever is written in between that leaves this migration alone, at most three runs
  -- change its phase, less what it had come when they began.
  pub Changes-bounded :
      {n : ℕ} {s t : K.State}
      → Changes s n t
      → (pm : PodMigration) → find (L.table s) pod_migration key ≡ some pm
      → key_of pm.metadata ≡ key
      → n + rank pm.status.phase ≤ 3
  Changes-bounded c pm there same =
      let (pm', _, _, far) = Further-Changes pm.status.phase c (pm, there, same, omega arith) in
      let top = rank_bounded pm'.status.phase in omega (arith, far, top)
