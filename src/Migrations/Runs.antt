-- ===== src/Migrations/Runs.antt =====
-- Any number of runs of the migration controller, with other writers between them.
use pod_checkpoint_controlle.Prelude.{ℕ, ◌≤◌, ◌≡◌, refl, ◌∙◌, subst, ◌⊎◌, inl, inr, some, arith}
use pod_checkpoint_controlle.Api.Meta.{ObjectKey, key_of}
use pod_checkpoint_controlle.Api.Migrations.{
  PodMigration, PodMigrationPhase, checkpointing, restoring, succeeded, failed,
}
use pod_checkpoint_controlle.Api.Objects.{pod_migration}
use pod_checkpoint_controlle.Kube.Client.{Kube}
use pod_checkpoint_controlle.Kube.Table.{find}
use pod_checkpoint_controlle.Kube.Laws.{Serves}
use pod_checkpoint_controlle.Migrations.{reconcile}
use pod_checkpoint_controlle.Migrations.Graph.{
  Edge, stay, begin_unset, begin_pending, proceed, succeed, fail, Follows, reconcile-Edge,
}

-- How far a migration has come.
abbrev pub rank : PodMigrationPhase → ℕ
rank checkpointing = 1
rank restoring = 2
rank succeeded = 3
rank failed = 3
rank _ = 0

module _ (K : Kube) (L : Serves K) (key : ObjectKey) where
  -- The states that runs of the controller lead to from `s`. Between two runs anything may happen
  -- that leaves this migration alone.
  pub data Reaches (s : K.State) : K.State → Type 0 where
    here : Reaches s s
    reconciled : {t : K.State} → Reaches s t → Reaches s (reconcile K key t).1
    elsewhere :
        {t u : K.State}
        → Reaches s t
        → find (L.table u) pod_migration key ≡ find (L.table t) pod_migration key
        → Reaches s u

  pub Edge-rank : {p q : PodMigrationPhase} → Edge p q → rank p ≤ rank q
  Edge-rank stay = omega arith
  Edge-rank begin_unset = omega arith
  Edge-rank begin_pending = omega arith
  Edge-rank proceed = omega arith
  Edge-rank succeed = omega arith
  Edge-rank fail = omega arith

  -- A phase that has ended is kept by every edge.
  Edge-ended : {p q : PodMigrationPhase} → Edge p q → rank p ≡ 3 → q ≡ p
  Edge-ended stay e = refl
  Edge-ended begin_unset e = absurd (omega arith)
  Edge-ended begin_pending e = absurd (omega arith)
  Edge-ended proceed e = absurd (omega arith)
  Edge-ended succeed e = absurd (omega arith)
  Edge-ended fail e = absurd (omega arith)

  over_rank : {p : PodMigrationPhase} → (p ≡ succeeded) ⊎ (p ≡ failed) → rank p ≡ 3
  over_rank (inl e) = rw e
  over_rank (inr e) = rw e

  -- What is stored under the key, in terms of the phase at the start.
  abbrev Advanced : PodMigrationPhase → K.State → Type 0
  Advanced p t =
      (pm' : PodMigration) × (find (L.table t) pod_migration key ≡ some pm')
      × (key_of pm'.metadata ≡ key)
      × (rank p ≤ rank pm'.status.phase)
      × (rank p ≡ 3 → pm'.status.phase ≡ p)

  pub edge_at :
      (pm : PodMigration) (t : K.State)
      → key_of pm.metadata ≡ key
      → find (L.table t) pod_migration key ≡ some pm
      → Follows K L pm.status.phase key (L.table (reconcile K key t).1)
  edge_at pm t same =
      subst
        (λ k.
          find (L.table t) pod_migration k ≡ some pm
          → Follows K L pm.status.phase k (L.table (reconcile K k t).1))
        same (λ there. reconcile-Edge K L pm t there)

  Advanced-reconcile :
      (p : PodMigrationPhase) (t : K.State) → Advanced p t → Advanced p (reconcile K key t).1
  Advanced-reconcile p t (pm, there, same, far, ended) =
      let (pm', there', edge, same') = edge_at pm t same there in
      let further = Edge-rank edge in
      (pm', there', same', omega (arith, further), λ e. Edge-ended edge (rw (ended e) e) ∙ ended e)

  Advanced-Reaches :
      (p : PodMigrationPhase) {s t : K.State} → Reaches s t → Advanced p s → Advanced p t
  Advanced-Reaches p here h = h
  Advanced-Reaches p (reconciled {t = t} r) h = Advanced-reconcile p t (Advanced-Reaches p r h)
  Advanced-Reaches p (elsewhere r e) h =
      let (pm, there, same, far, ended) = Advanced-Reaches p r h in
      (pm, e ∙ there, same, far, ended)

  -- Of a stored migration, with a server that serves each run alone: however often the controller
  -- runs, and whatever is written in between that leaves this migration alone, the migration stays
  -- stored and never goes back to an earlier phase.
  pub Reaches-rank :
      {s t : K.State}
      → Reaches s t
      → (pm : PodMigration) → find (L.table s) pod_migration key ≡ some pm
      → key_of pm.metadata ≡ key
      → (pm' : PodMigration) × (find (L.table t) pod_migration key ≡ some pm')
        × (rank pm.status.phase ≤ rank pm'.status.phase)
  Reaches-rank r pm there same =
      let (pm', there', same', far, ended) =
        Advanced-Reaches pm.status.phase r (pm, there, same, omega arith, λ e. refl) in
      (pm', there', far)

  -- Of a stored migration that has succeeded or failed, with a server that serves each run alone:
  -- it keeps that phase, however often the controller runs and whatever is written in between that
  -- leaves this migration alone.
  pub Reaches-ended :
      {s t : K.State}
      → Reaches s t
      → (pm : PodMigration) → find (L.table s) pod_migration key ≡ some pm
      → key_of pm.metadata ≡ key
      → (pm.status.phase ≡ succeeded) ⊎ (pm.status.phase ≡ failed)
      → (pm' : PodMigration) × (find (L.table t) pod_migration key ≡ some pm')
        × (pm'.status.phase ≡ pm.status.phase)
  Reaches-ended r pm there same over =
      let (pm', there', same', far, ended) =
        Advanced-Reaches pm.status.phase r (pm, there, same, omega arith, λ e. refl) in
      (pm', there', ended (over_rank over))
