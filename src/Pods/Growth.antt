-- ===== src/Pods/Growth.antt =====
-- Step 8 of `PodCheckpointReconciler.Reconcile` on the objects: what it creates and what it keeps.
use pod_checkpoint_controlle.Prelude.{
  String, eq_iff, ◌≡◌, refl, sym, ◌∙◌, subst, Bool, true, false, ◌&&◌, Option, none, some, is_some,
  List, [], ◌∷◌, arith, Bool-cases, Option-cases, inl, inr,
}
use pod_checkpoint_controlle.Go.Errors.{GoError}
use pod_checkpoint_controlle.Go.Flow.{next}
use pod_checkpoint_controlle.Api.Meta.{ObjectKey, same_key, Container, Pod}
use pod_checkpoint_controlle.Api.Containers.{ContainerCheckpoint}
use pod_checkpoint_controlle.Api.Pods.{PodCheckpoint}
use pod_checkpoint_controlle.Api.Objects.{
  container_checkpoint, pod_checkpoint, pod_checkpoint_content, pod, pod_migration,
}
use pod_checkpoint_controlle.Kube.Client.{Kube}
use pod_checkpoint_controlle.Kube.Table.{Table, find, store, find-store}
use pod_checkpoint_controlle.Kube.Laws.{Serves}
use pod_checkpoint_controlle.Pods.Members.{
  member_key, member_object, or_nil, fill_in, ensure_members,
}
use pod_checkpoint_controlle.Pods.Aggregate.{is_restorable}

-- A ContainerCheckpoint that asks for a pod and a container.
abbrev pub is_asking : Option ContainerCheckpoint → Bool
is_asking none = false
is_asking (some m) = is_some m.spec.source.pod_name && is_some m.spec.source.container_name

-- Every container has one.
abbrev pub all_asking : Table → PodCheckpoint → List Container → Bool
all_asking t pc [] = true
all_asking t pc (c ∷ cs) =
    is_asking (find t container_checkpoint (member_key pc c)) && all_asking t pc cs

-- From `t` to `u` no ContainerCheckpoint ceases to ask or to be restorable, and no
-- PodCheckpoint, content of one, migration or pod is changed.
pub record Grows (t u : Table) : Type 0 where
  pub asking :
      (key : ObjectKey)
      → is_asking (find t container_checkpoint key) ≡ true
      → is_asking (find u container_checkpoint key) ≡ true
  pub restorable :
      (key : ObjectKey)
      → is_restorable (find t container_checkpoint key) ≡ true
      → is_restorable (find u container_checkpoint key) ≡ true
  pub checkpoints : (key : ObjectKey) → find u pod_checkpoint key ≡ find t pod_checkpoint key
  pub contents :
      (key : ObjectKey) → find u pod_checkpoint_content key ≡ find t pod_checkpoint_content key
  pub migrations : (key : ObjectKey) → find u pod_migration key ≡ find t pod_migration key
  pub pods : (key : ObjectKey) → find u pod key ≡ find t pod key

Grows-refl : {t u : Table} → u ≡ t → Grows t u
Grows-refl e = record {
  asking = λ key h. rw e h;
  restorable = λ key h. rw e h;
  checkpoints = λ key. rw e refl;
  contents = λ key. rw e refl;
  migrations = λ key. rw e refl;
  pods = λ key. rw e refl;
}

Grows-trans : {t u w : Table} → Grows t u → Grows u w → Grows t w
Grows-trans a b = record {
  asking = λ key h. b.asking key (a.asking key h);
  restorable = λ key h. b.restorable key (a.restorable key h);
  checkpoints = λ key. b.checkpoints key ∙ a.checkpoints key;
  contents = λ key. b.contents key ∙ a.contents key;
  migrations = λ key. b.migrations key ∙ a.migrations key;
  pods = λ key. b.pods key ∙ a.pods key;
}

same_key-eq : (a b : ObjectKey) → same_key a b ≡ true → a ≡ b
same_key-eq a b h = ground (arith, eq_iff a.namespace b.namespace, eq_iff a.name b.name)

-- What holds of the object at a key and of the one that is written there, holds after the write.
kept-store :
    (P : Option ContainerCheckpoint → Bool) (t : Table) (key : ObjectKey)
    (x : Option ContainerCheckpoint)
    → (P (find t container_checkpoint key) ≡ true → P x ≡ true)
    → (j : ObjectKey) → P (find t container_checkpoint j) ≡ true
    → P (find (store container_checkpoint key x t) container_checkpoint j) ≡ true
kept-store P t key x k j h = elim (Bool-cases (same_key key j)) [
  | inl e ↦
      rw e (k (subst (λ i. P (find t container_checkpoint i) ≡ true) (sym (same_key-eq key j e)) h))
  | inr e ↦ rw e h
]

Grows-store :
    (t u : Table) (key : ObjectKey) (x : ContainerCheckpoint)
    → u ≡ store container_checkpoint key (some x) t
    → is_asking (some x) ≡ true
    → (is_restorable (find t container_checkpoint key) ≡ true → is_restorable (some x) ≡ true)
    → Grows t u
Grows-store t u key x e asks keeps = record {
  asking = λ j h. rw e (kept-store is_asking t key (some x) (λ _. asks) j h);
  restorable = λ j h. rw e (kept-store is_restorable t key (some x) keeps j h);
  checkpoints = λ j. rw e refl;
  contents = λ j. rw e refl;
  migrations = λ j. rw e refl;
  pods = λ j. rw e refl;
}

or_nil-is_some : (o : Option String) (v : String) → is_some (or_nil o v) ≡ true
or_nil-is_some none v = refl
or_nil-is_some (some w) v = refl

fill_in-is_asking :
    (pc : PodCheckpoint) (p : Pod) (c : Container) (m : ContainerCheckpoint)
    → is_asking (some (fill_in pc p c m)) ≡ true
unfolding fill_in
fill_in-is_asking pc p c m =
    rw (or_nil-is_some m.spec.source.pod_name p.metadata.name)
      (or_nil-is_some m.spec.source.container_name c.name)

module _ (K : Kube) (L : Serves K) (pc : PodCheckpoint) (p : Pod) where
  abbrev ensure : Container → K.State → Option GoError × K.State
  ensure c s = K.create_or_update container_checkpoint (member_object pc c) (fill_in pc p c) s

  -- A `CreateOrUpdate` succeeds; its container has a ContainerCheckpoint that asks; and the rest grows.
  abbrev Ensured : Container → K.State → Type 0
  Ensured c s =
      ((ensure c s).0 ≡ none)
      × (is_asking (find (L.table (ensure c s).1) container_checkpoint (member_key pc c)) ≡ true)
      × Grows (L.table s) (L.table (ensure c s).1)

  written_Ensured :
      (c : Container) (s : K.State) (x : ContainerCheckpoint)
      → (ensure c s).0 ≡ none
      → L.table (ensure c s).1 ≡ store container_checkpoint (member_key pc c) (some x) (L.table s)
      → is_asking (some x) ≡ true
      → (is_restorable (find (L.table s) container_checkpoint (member_key pc c)) ≡ true
          → is_restorable (some x) ≡ true)
      → Ensured c s
  written_Ensured c s x none_failed e asks keeps = (
    none_failed,
    rw (e, find-store container_checkpoint (member_key pc c) (some x) (L.table s)) asks,
    Grows-store (L.table s) _ (member_key pc c) x e asks keeps,
  )

  ensure-Ensured : (c : Container) (s : K.State) → Ensured c s
  unfolding fill_in
  ensure-Ensured c s =
      elim (Option-cases (find (L.table s) container_checkpoint (member_key pc c))) [
        | inl absent ↦
            let q =
              L.create_or_update_new container_checkpoint (member_object pc c) (fill_in pc p c) s
                absent refl in
            written_Ensured c s _ q.0 q.1 (fill_in-is_asking pc p c (member_object pc c))
              (λ h. cc (h, absent))
        | inr (old, there) ↦
            let q =
              L.create_or_update_old container_checkpoint (member_object pc c) old (fill_in pc p c)
                s there in
            written_Ensured c s _ q.0 q.1.1 (fill_in-is_asking pc p c old)
              (λ h. subst (λ x. is_restorable x ≡ true) there h)
      ]

  -- With a server that serves step 8 alone: it goes on, every container of the pod has a
  -- ContainerCheckpoint that names a pod and a container, and whatever was ready stays so.
  pub ensure_members_lem :
      (cs : List Container) (s : K.State)
      → ((ensure_members K pc p cs s).0 ≡ next tt)
        × (all_asking (L.table (ensure_members K pc p cs s).1) pc cs ≡ true)
        × Grows (L.table s) (L.table (ensure_members K pc p cs s).1)
  unfolding ensure_members
  ensure_members_lem [] s = (refl, refl, Grows-refl refl)
  ensure_members_lem (c ∷ cs) s =
      let (e, asks, grows) = ensure-Ensured c s in
      let (done, all, more) = ensure_members_lem cs (ensure c s).1 in
      (
        ground (arith, e, done),
        ground (arith, e, all, more.asking (member_key pc c) asks),
        rw e (Grows-trans grows more),
      )
