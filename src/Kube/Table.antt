-- ===== src/Kube/Table.antt =====
-- The objects that an API server holds, by kind and key.
use pod_checkpoint_controlle.Prelude.{
  ℕ, ◌≡◌, refl, ap, eq_refl, Bool, true, false, Option, none, some, [], ◌∷◌, if◌then◌else◌,
}
use pod_checkpoint_controlle.Go.Errors.{GoError, Result, ok, err}
use pod_checkpoint_controlle.Api.Meta.{ObjectKey, same_key, ObjectMeta, Pod}
use pod_checkpoint_controlle.Api.Containers.{ContainerCheckpoint, ContainerCheckpointContent}
use pod_checkpoint_controlle.Api.Pods.{PodCheckpoint, PodCheckpointContent}
use pod_checkpoint_controlle.Api.Migrations.{PodMigration}
use pod_checkpoint_controlle.Api.Objects.{
  Kind, container_checkpoint, container_checkpoint_content, pod_checkpoint, pod_checkpoint_content,
  pod_migration, pod, Object, metadata, with_metadata,
}

pub record Table : Type 0 where
  pub container_checkpoints : ObjectKey → Option ContainerCheckpoint
  pub container_checkpoint_contents : ObjectKey → Option ContainerCheckpointContent
  pub pod_checkpoints : ObjectKey → Option PodCheckpoint
  pub pod_checkpoint_contents : ObjectKey → Option PodCheckpointContent
  pub pod_migrations : ObjectKey → Option PodMigration
  pub pods : ObjectKey → Option Pod

abbrev pub find : Table → (k : Kind) → ObjectKey → Option (Object k)
find t container_checkpoint = t.container_checkpoints
find t container_checkpoint_content = t.container_checkpoint_contents
find t pod_checkpoint = t.pod_checkpoints
find t pod_checkpoint_content = t.pod_checkpoint_contents
find t pod_migration = t.pod_migrations
find t pod = t.pods

abbrev at : {V : Type 0} → (ObjectKey → Option V) → ObjectKey → Option V → ObjectKey → Option V
at f key v j = if same_key key j then v else f j

-- The table in which `v` stands at a key; `none` removes the object.
abbrev pub store : (k : Kind) → ObjectKey → Option (Object k) → Table → Table
store container_checkpoint key v t = record t {
  container_checkpoints = at t.container_checkpoints key v;
}
store container_checkpoint_content key v t = record t {
  container_checkpoint_contents = at t.container_checkpoint_contents key v;
}
store pod_checkpoint key v t = record t { pod_checkpoints = at t.pod_checkpoints key v }
store pod_checkpoint_content key v t = record t {
  pod_checkpoint_contents = at t.pod_checkpoint_contents key v;
}
store pod_migration key v t = record t { pod_migrations = at t.pod_migrations key v }
store pod key v t = record t { pods = at t.pods key v }

-- The object as the server keeps it: with a new resource version. An object that is being deleted
-- goes when its last finalizer does.
abbrev kept : (k : Kind) → ObjectMeta → Object k → Option (Object k)
kept k m o = elim m.deletion_timestamp [
  | none ↦ some o
  | some at ↦ elim m.finalizers [ [] ↦ none | _ ∷ _ ↦ some o ]
]

abbrev pub stamped : (k : Kind) → ℕ → Object k → Object k
stamped k v o = with_metadata k (record (metadata k o) { resource_version = v }) o

abbrev pub settle : (k : Kind) → ℕ → Object k → Option (Object k)
settle k v o = kept k (metadata k o) (stamped k v o)

abbrev pub found : (k : Kind) → GoError → Option (Object k) → Result (Object k)
found k e none = err e
found k e (some o) = ok o

-- What is stored at a key is found there.
pub find-store :
    (k : Kind) (key : ObjectKey) (v : Option (Object k)) (t : Table)
    → find (store k key v t) k key ≡ v
find-store container_checkpoint key v t = rw (eq_refl key.namespace, eq_refl key.name)
find-store container_checkpoint_content key v t = rw (eq_refl key.namespace, eq_refl key.name)
find-store pod_checkpoint key v t = rw (eq_refl key.namespace, eq_refl key.name)
find-store pod_checkpoint_content key v t = rw (eq_refl key.namespace, eq_refl key.name)
find-store pod_migration key v t = rw (eq_refl key.namespace, eq_refl key.name)
find-store pod key v t = rw (eq_refl key.namespace, eq_refl key.name)

last_at :
    {V : Type 0} (b : Bool) (x y z : V)
    → (if b then z else if b then y else x) ≡ (if b then z else x)
last_at true x y z = refl
last_at false x y z = refl

at-at :
    {V : Type 0} (f : ObjectKey → Option V) (key : ObjectKey) (u v : Option V)
    → at (at f key u) key v ≡ at f key v
at-at f key u v = λ i j. last_at (same_key key j) (f j) u v i

-- What is stored last at a key is all that counts.
pub store-store :
    (k : Kind) (key : ObjectKey) (u v : Option (Object k)) (t : Table)
    → store k key v (store k key u t) ≡ store k key v t
store-store container_checkpoint key u v t =
    ap (λ m. record t { container_checkpoints = m }) (at-at t.container_checkpoints key u v)
store-store container_checkpoint_content key u v t =
    ap (λ m. record t { container_checkpoint_contents = m })
      (at-at t.container_checkpoint_contents key u v)
store-store pod_checkpoint key u v t =
    ap (λ m. record t { pod_checkpoints = m }) (at-at t.pod_checkpoints key u v)
store-store pod_checkpoint_content key u v t =
    ap (λ m. record t { pod_checkpoint_contents = m }) (at-at t.pod_checkpoint_contents key u v)
store-store pod_migration key u v t =
    ap (λ m. record t { pod_migrations = m }) (at-at t.pod_migrations key u v)
store-store pod key u v t = ap (λ m. record t { pods = m }) (at-at t.pods key u v)
