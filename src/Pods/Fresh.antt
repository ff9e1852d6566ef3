-- ===== src/Pods/Fresh.antt =====
-- The members that step 8 of `PodCheckpointReconciler.Reconcile` creates.
use pod_checkpoint_controlle.Prelude.{
  ◌<>◌, ◌==◌, ℕ, String, ◌≡◌, refl, sym, subst, ◌∙◌, false, Option, none, some, List, [], ◌∷◌,
}
use pod_checkpoint_controlle.Prelude.All.{All, All-map, All-zip}
use pod_checkpoint_controlle.Go.Errors.{GoError}
use pod_checkpoint_controlle.Go.Flow.{Reply, Step, next}
use pod_checkpoint_controlle.Api.Meta.{ObjectKey, Container, Pod}
use pod_checkpoint_controlle.Api.Containers.{ContainerCheckpoint}
use pod_checkpoint_controlle.Api.Pods.{PodCheckpoint}
use pod_checkpoint_controlle.Api.Objects.{container_checkpoint, container_checkpoint_content}
use pod_checkpoint_controlle.Kube.Client.{Kube}
use pod_checkpoint_controlle.Kube.Table.{Table, find, stamped, find-store}
use pod_checkpoint_controlle.Kube.Laws.{Serves, admitted}
use pod_checkpoint_controlle.Prelude.Dict.{index, index_or_empty, index-insert}
use pod_checkpoint_controlle.Containers.{cluster_key, target_node}
use pod_checkpoint_controlle.Pods.{target_of}
use pod_checkpoint_controlle.Pods.Members.{
  member_name, member_key, member_object, fill_in, ensure_members,
}
use pod_checkpoint_controlle.Pods.Aggregate.{all_restorable}
use pod_checkpoint_controlle.Pods.Frame.{
  IsOther, IsOther-sym, Distinct, Spares, Spares-nil, Spares-cons, Spares-created,
}

-- The key of a member's content.
abbrev pub content_key : PodCheckpoint → Container → ObjectKey
content_key pc c = cluster_key (member_name pc.metadata.name c.name)

-- A member as step 8 creates it.
abbrev pub fresh : PodCheckpoint → Pod → ℕ → String → Container → ContainerCheckpoint
fresh pc p w uid c =
    stamped container_checkpoint w
      (admitted container_checkpoint uid (fill_in pc p c (member_object pc c)))

-- It is stored, and its content does not exist yet.
pub record IsFresh (pc : PodCheckpoint) (p : Pod) (t : Table) (c : Container) : Type 0 where
  pub version : ℕ
  pub uid : String
  pub stored : find t container_checkpoint (member_key pc c) ≡ some (fresh pc p version uid c)
  pub absent : find t container_checkpoint_content (content_key pc c) ≡ none

module _ (pc : PodCheckpoint) (p : Pod) where
  pub IsFresh-Spares :
      {t u : Table} {cs : List Container} (d : Container)
      → Spares pc cs t u
      → All (λ c. IsOther c d) cs
      → IsFresh pc p t d
      → IsFresh pc p u d
  IsFresh-Spares d sp others v = record {
    version = v.version;
    uid = v.uid;
    stored = sp.members d others ∙ v.stored;
    absent = sp.contents d others ∙ v.absent;
  }

-- Neither the member nor its content exists.
pub record IsAbsent (pc : PodCheckpoint) (t : Table) (c : Container) : Type 0 where
  pub member : find t container_checkpoint (member_key pc c) ≡ none
  pub content : find t container_checkpoint_content (content_key pc c) ≡ none

IsAbsent-Spares :
    (pc : PodCheckpoint) {t u : Table} (c d : Container)
    → Spares pc (c ∷ []) t u
    → IsOther c d
    → IsAbsent pc t d
    → IsAbsent pc u d
IsAbsent-Spares pc c d sp other v = record {
  member = sp.members d (other, tt) ∙ v.member;
  content = sp.contents d (other, tt) ∙ v.content;
}

module _ (K : Kube) (L : Serves K) (pc : PodCheckpoint) (p : Pod) where
  abbrev made : Container → K.State → Option GoError × K.State
  made c s = K.create_or_update container_checkpoint (member_object pc c) (fill_in pc p c) s

  one_made :
      (c : Container) (s : K.State)
      → IsAbsent pc (L.table s) c
      → ((made c s).0 ≡ none)
        × IsFresh pc p (L.table (made c s).1) c
        × Spares pc (c ∷ []) (L.table s) (L.table (made c s).1)
  unfolding fill_in
  one_made c s v =
      let q =
        L.create_or_update_new container_checkpoint (member_object pc c) (fill_in pc p c) s v.member
          refl in
      let new = fresh pc p (L.fresh s) (L.fresh_uid s) c in
      (
        q.0,
        record {
          version = L.fresh s;
          uid = L.fresh_uid s;
          stored =
              rw q.1 (find-store container_checkpoint (member_key pc c) (some new) (L.table s));
          absent = rw q.1 v.content;
        },
        Spares-created pc c new q.1,
      )

  -- Step 8 goes on, each container has its fresh member, and nothing else has changed.
  abbrev pub AreMade : List Container → Table → Step Reply (Unit {0}) × K.State → Type 0
  AreMade cs t q =
      (q.0 ≡ next tt) × All (IsFresh pc p (L.table q.1)) cs × Spares pc cs t (L.table q.1)

  step_made :
      (c : Container) (cs : List Container) (s : K.State)
      → (made c s).0 ≡ none
      → ensure_members K pc p (c ∷ cs) s ≡ ensure_members K pc p cs (made c s).1
  unfolding ensure_members
  step_made c cs s e = rw (e, ensure_members) refl

  -- With a server that serves step 8 alone: of containers of different names, which have no members
  -- yet and no contents of these, each is given its member, and nothing else has changed.
  pub ensure_members-IsFresh :
      (cs : List Container) (s : K.State)
      → Distinct cs
      → All (IsAbsent pc (L.table s)) cs
      → AreMade cs (L.table s) (ensure_members K pc p cs s)
  unfolding ensure_members
  ensure_members-IsFresh [] s distinct absent = (refl, tt, Spares-nil pc (L.table s))
  ensure_members-IsFresh (c ∷ cs) s distinct absent =
      let (e, new, spares) = one_made c s absent.0 in
      let u : K.State = (made c s).1 in
      let (done, rest, kept) = ensure_members-IsFresh cs u distinct.1 (
        All-zip (IsOther c) (IsAbsent pc (L.table s)) (IsAbsent pc (L.table u))
          (λ d. IsAbsent-Spares pc c d spares) cs distinct.0 absent.1) in
      let others = All-map (IsOther c) (λ d. IsOther d c) (λ d. IsOther-sym c d) cs distinct.0 in
      subst (AreMade (c ∷ cs) (L.table s)) (sym (step_made c cs s e))
        (done, (IsFresh-Spares pc p c kept others new, rest), Spares-cons pc spares kept)

  -- A fresh member is not ready, so step 9 finds that not all are.
  pub fresh_unready :
      {t : Table} (c : Container) (cs : List Container)
      → IsFresh pc p t c
      → all_restorable t pc (c ∷ cs) ≡ false
  unfolding fill_in
  fresh_unready c cs v = rw v.stored refl

-- A member that asks for its container: a ContainerCheckpoint in the checkpoint's namespace, named by
-- the checkpoint and the container, which names the pod and the container and no existing content,
-- has the checkpoint's deletion policy and the target node as an annotation, unless that is empty,
-- and is neither bound nor ready.
pub record IsAsked (pc : PodCheckpoint) (p : Pod) (t : Table) (c : Container) : Type 0 where
  pub member : ContainerCheckpoint
  pub stored :
      find t container_checkpoint
        (record { namespace = pc.metadata.namespace; name = pc.metadata.name <> "-" <> c.name })
      ≡ some member
  pub pod_named : member.spec.source.pod_name ≡ some p.metadata.name
  pub container_named : member.spec.source.container_name ≡ some c.name
  pub dynamic : member.spec.source.container_checkpoint_content_name ≡ none
  pub policy : member.spec.deletion_policy ≡ pc.spec.deletion_policy
  pub targeted :
      (target : String)
      → index "checkpointing.zacchaeuschok.github.io/targetNode" pc.metadata.annotations
        ≡ some target
      → (target == "") ≡ false
      → index "checkpointing.zacchaeuschok.github.io/targetNode" member.metadata.annotations
        ≡ some target
  pub unbound : member.status.bound_container_checkpoint_content_name ≡ none
  pub unready : member.status.ready_to_restore ≡ false

target_of_named :
    (pc : PodCheckpoint) (target : String)
    → index target_node pc.metadata.annotations ≡ some target
    → target_of pc ≡ target
unfolding index_or_empty
target_of_named pc target named = rw (named, index_or_empty) refl

pub IsFresh-IsAsked :
    (pc : PodCheckpoint) (p : Pod) (t : Table) (c : Container) → IsFresh pc p t c → IsAsked pc p t c
unfolding fill_in
IsFresh-IsAsked pc p t c v = record {
  member = fresh pc p v.version v.uid c;
  stored = v.stored;
  pod_named = refl;
  container_named = refl;
  dynamic = refl;
  policy = refl;
  targeted = λ target named filled.
      rw (target_of_named pc target named, filled) (index-insert target_node target []);
  unbound = refl;
  unready = refl;
}
