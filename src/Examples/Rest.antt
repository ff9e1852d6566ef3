-- ===== src/Examples/Rest.antt =====
-- The theorem on the reconcilers' rest at a concrete input: a migration that is done, and what was made
-- for it.
use pod_checkpoint_controlle.Prelude.{
  ◌==◌, ◌≡◌, refl, ap, sym, subst, ◌∙◌, eq_iff, Bool, true, false, inl, none, some, [], ◌∷◌,
  if◌then◌else◌, arith,
}
use pod_checkpoint_controlle.Go.Flow.{finished}
use pod_checkpoint_controlle.Api.Meta.{ObjectKey, key_of, same_key}
use pod_checkpoint_controlle.Api.Containers.{ContainerCheckpoint, ContainerCheckpointContent}
use pod_checkpoint_controlle.Api.Pods.{PodCheckpoint}
use pod_checkpoint_controlle.Api.Migrations.{PodMigration, succeeded}
use pod_checkpoint_controlle.Api.Objects.{
  container_checkpoint, container_checkpoint_content, pod_checkpoint, pod_migration, pod,
}
use pod_checkpoint_controlle.Kube.Table.{Table, store}
use pod_checkpoint_controlle.Kube.Memory.{empty_table, cluster-Serves, contains}
use pod_checkpoint_controlle.Containers.{has_container}
use pod_checkpoint_controlle.Sidecar.Online.{online_host}
use pod_checkpoint_controlle.System.Rest.{
  IsBoundCheckpoint, IsBoundPodCheckpoint, IsReadyContent, IsAtRest,
}
use pod_checkpoint_controlle.System.Rest.Turns.{
  of_checkpoint, of_pod_checkpoint, of_migration, of_content, take_turn, take_turns,
  take_turns-IsAtRest,
}
use pod_checkpoint_controlle.Examples.System.{
  web, sidecars, K, on_n1, holding, asking, due, key, content_key,
}
use pod_checkpoint_controlle.Examples.Whole.{requested, whole, move_key, whole_key}

abbrev bound : ContainerCheckpoint
bound = record asking {
  status = record asking.status {
    bound_container_checkpoint_content_name = some "web-app";
    ready_to_restore = true;
  };
}

abbrev ready : ContainerCheckpointContent
ready = record due { status = record due.status { ready_to_restore = true } }

abbrev bound_whole : PodCheckpoint
bound_whole = record whole {
  status = record whole.status {
    bound_pod_checkpoint_content_name = some "move-checkpoint-pcc";
    ready_to_restore = true;
  };
}

abbrev done : PodMigration
done = record requested { status = record requested.status { phase = succeeded } }

abbrev table : Table
table =
    store pod (record { namespace = "shop"; name = "web" }) (some web)
      (store container_checkpoint key (some bound) (
        store container_checkpoint_content content_key (some ready) (
          store pod_checkpoint whole_key (some bound_whole)
            (store pod_migration move_key (some done) empty_table))))

bound-IsBoundCheckpoint : IsBoundCheckpoint K table bound
unfolding contains has_container
bound-IsBoundCheckpoint = record {
  live = refl;
  guarded = refl;
  dynamic = refl;
  pod_name = "web";
  pod_named = refl;
  container_name = "app";
  container_named = refl;
  source = web;
  pod_stored = refl;
  contained = refl;
  content_name = "web-app";
  bound = refl;
}

bound_whole-IsBoundPodCheckpoint : IsBoundPodCheckpoint K table bound_whole
unfolding contains
bound_whole-IsBoundPodCheckpoint = record {
  live = refl;
  guarded = refl;
  dynamic = refl;
  pod_name = "web";
  pod_named = refl;
  source = web;
  pod_stored = refl;
  content_name = "move-checkpoint-pcc";
  bound = refl;
}

ready-IsReadyContent : IsReadyContent K table ready
unfolding contains
ready-IsReadyContent = record {
  live = refl;
  guarded = refl;
  ref = record { name = "web-app"; namespace = "shop" };
  referred = refl;
  parent = bound;
  parent_stored = refl;
  pod_name = "web";
  pod_named = refl;
  container_name = "app";
  container_named = refl;
  ready = refl;
}

-- Of a table with one object, what is found is that object.
only :
    {A : Type 0} (b : Bool) (x y : A) → (if b then some x else none) ≡ some y → (b ≡ true) × (x ≡ y)
only true x y e = (refl, cc (e))
only false x y e = absurd (cc (e))

same_key-eq : (a b : ObjectKey) → same_key a b ≡ true → a ≡ b
same_key-eq a b e =
    let spaces : (a.namespace == b.namespace) ≡ true = ground (arith, e) in
    let names : (a.name == b.name) ≡ true = ground (arith, e) in
    λ i. record {
      namespace = (eq_iff a.namespace b.namespace).0 spaces i;
      name = (eq_iff a.name b.name).0 names i;
    }

table-IsAtRest : IsAtRest K table
table-IsAtRest = record {
  checkpoints = λ k o e.
      subst (IsBoundCheckpoint K table) (only (same_key key k) bound o e).1 bound-IsBoundCheckpoint;
  pod_checkpoints = λ k o e.
      subst (IsBoundPodCheckpoint K table) (only (same_key whole_key k) bound_whole o e).1
        bound_whole-IsBoundPodCheckpoint;
  contents = λ k o e.
      subst (IsReadyContent K table) (only (same_key content_key k) ready o e).1
        ready-IsReadyContent;
  migrations = λ k o e.
      let (there, same) = only (same_key move_key k) done o e in
      (
        ap (λ m. key_of m.metadata) (sym same) ∙ same_key-eq move_key k there,
        inl (ap (λ m. m.status.phase) (sym same)),
      );
}

take_turns-IsAtRest_example :
    let turns =
      of_migration move_key
      ∷ of_content on_n1 content_key
      ∷ of_checkpoint key
      ∷ of_content on_n1 key
      ∷ of_pod_checkpoint whole_key
      ∷ [] in
    let s = take_turns K (λ r. online_host 201) turns (holding table) in
    (s.table ≡ table)
    × ((take_turn K (λ r. online_host 201) (of_migration whole_key) s).0 ≡ finished)
unfolding cluster-Serves
take_turns-IsAtRest_example =
    take_turns-IsAtRest K (λ r. online_host 201) (cluster-Serves sidecars)
      (of_migration move_key
        ∷ of_content on_n1 content_key
        ∷ of_checkpoint key
        ∷ of_content on_n1 key
        ∷ of_pod_checkpoint whole_key
        ∷ [])
      (of_migration whole_key) (holding table) table-IsAtRest
