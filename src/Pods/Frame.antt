-- ===== src/Pods/Frame.antt =====
-- What a change of some members of a PodCheckpoint, and of their contents, leaves alone.
use text.Mathlib.TextLemmas.{append_cancel_left}
use pod_checkpoint_controlle.Prelude.{
  String, ◌<>◌, ◌==◌, eq_iff, ◌≡◌, refl, ◌∙◌, Bool, false, ◌&&◌, some, List, [], ◌∷◌, arith,
  Bool-cases, inl, inr,
}
use pod_checkpoint_controlle.Prelude.All.{All}
use pod_checkpoint_controlle.Api.Meta.{ObjectKey, Container}
use pod_checkpoint_controlle.Api.Containers.{ContainerCheckpoint, ContainerCheckpointContent}
use pod_checkpoint_controlle.Api.Pods.{PodCheckpoint}
use pod_checkpoint_controlle.Api.Objects.{
  container_checkpoint, container_checkpoint_content, pod_checkpoint, pod_checkpoint_content, pod,
  pod_migration,
}
use pod_checkpoint_controlle.Kube.Table.{Table, find, store}
use pod_checkpoint_controlle.Pods.Members.{member_name, member_key}
use pod_checkpoint_controlle.Containers.{cluster_key}

-- Two containers of different names.
abbrev pub IsOther : Container → Container → Type 0
IsOther c d = (c.name == d.name) ≡ false

pub IsOther-sym : (c d : Container) → IsOther c d → IsOther d c
IsOther-sym c d h = ground (arith, h, eq_iff c.name d.name, eq_iff d.name c.name)

-- The names of their members differ.
member_name-IsOther :
    (a : String) (c d : Container)
    → IsOther c d
    → (member_name a c.name == member_name a d.name) ≡ false
member_name-IsOther a c d h = elim (Bool-cases (member_name a c.name == member_name a d.name)) [
  | inl same ↦
      let tails = append_cancel_left a ("-" <> c.name) ("-" <> d.name) ((eq_iff _ _).0 same) in
      let names = append_cancel_left "-" c.name d.name tails in
      cc (h, (eq_iff c.name d.name).1 names)
  | inr differ ↦ differ
]

and_false : (a b : Bool) → b ≡ false → (a && b) ≡ false
and_false a b h = ground (arith, h)

-- From `t` to `u` only the members of the containers `cs`, and their contents, have changed.
pub record Spares (pc : PodCheckpoint) (cs : List Container) (t u : Table) : Type 0 where
  pub members :
      (d : Container)
      → All (λ c. IsOther c d) cs
      → find u container_checkpoint (member_key pc d)
        ≡ find t container_checkpoint (member_key pc d)
  pub contents :
      (d : Container)
      → All (λ c. IsOther c d) cs
      → find u container_checkpoint_content (cluster_key (member_name pc.metadata.name d.name))
        ≡ find t container_checkpoint_content (cluster_key (member_name pc.metadata.name d.name))
  pub checkpoints : (key : ObjectKey) → find u pod_checkpoint key ≡ find t pod_checkpoint key
  pub pod_contents :
      (key : ObjectKey) → find u pod_checkpoint_content key ≡ find t pod_checkpoint_content key
  pub migrations : (key : ObjectKey) → find u pod_migration key ≡ find t pod_migration key
  pub pods : (key : ObjectKey) → find u pod key ≡ find t pod key

module _ (pc : PodCheckpoint) where
  pub Spares-nil : (t : Table) → Spares pc [] t t
  Spares-nil t = record {
    members = λ d h. refl;
    contents = λ d h. refl;
    checkpoints = λ key. refl;
    pod_contents = λ key. refl;
    migrations = λ key. refl;
    pods = λ key. refl;
  }

  pub Spares-cons :
      {c : Container} {cs : List Container} {t u w : Table}
      → Spares pc (c ∷ []) t u
      → Spares pc cs u w
      → Spares pc (c ∷ cs) t w
  Spares-cons a b = record {
    members = λ d h. b.members d h.1 ∙ a.members d (h.0, tt);
    contents = λ d h. b.contents d h.1 ∙ a.contents d (h.0, tt);
    checkpoints = λ key. b.checkpoints key ∙ a.checkpoints key;
    pod_contents = λ key. b.pod_contents key ∙ a.pod_contents key;
    migrations = λ key. b.migrations key ∙ a.migrations key;
    pods = λ key. b.pods key ∙ a.pods key;
  }

  pub Spares-store :
      (c : Container) (m : ContainerCheckpoint) (content : ContainerCheckpointContent) {t u : Table}
      → u
        ≡ store container_checkpoint (member_key pc c) (some m) (
            store container_checkpoint_content
              (cluster_key (member_name pc.metadata.name c.name))
              (some content)
              t)
      → Spares pc (c ∷ []) t u
  Spares-store c m content e = record {
    members = λ d h. rw (e, member_name-IsOther pc.metadata.name c d h.0, and_false) refl;
    contents = λ d h. rw (e, member_name-IsOther pc.metadata.name c d h.0) refl;
    checkpoints = λ key. rw e refl;
    pod_contents = λ key. rw e refl;
    migrations = λ key. rw e refl;
    pods = λ key. rw e refl;
  }

  -- A member that is created, or written.
  pub Spares-created :
      (c : Container) (m : ContainerCheckpoint) {t u : Table}
      → u ≡ store container_checkpoint (member_key pc c) (some m) t
      → Spares pc (c ∷ []) t u
  Spares-created c m e = record {
    members = λ d h. rw (e, member_name-IsOther pc.metadata.name c d h.0, and_false) refl;
    contents = λ d h. rw e refl;
    checkpoints = λ key. rw e refl;
    pod_contents = λ key. rw e refl;
    migrations = λ key. rw e refl;
    pods = λ key. rw e refl;
  }

-- No two containers have one name, as the API server sees to.
abbrev pub Distinct : List Container → Type 0
Distinct [] = Unit
Distinct (c ∷ cs) = All (IsOther c) cs × Distinct cs
