-- ===== src/Pods/Names.antt =====
-- The mutate function of step 8, and the names of the ContainerCheckpoints.
use text.Mathlib.TextLemmas.{append_assoc}
use pod_checkpoint_controlle.Prelude.{
  String, ◌<>◌, ◌==◌, ◌≡◌, refl, Option, none, some, [], ◌∷◌, arith, eq_refl, if◌then◌else◌,
}
use pod_checkpoint_controlle.Prelude.Dict.{GoMap, Dict, insert}
use pod_checkpoint_controlle.Api.Meta.{Container, Pod}
use pod_checkpoint_controlle.Api.Containers.{ContainerCheckpoint}
use pod_checkpoint_controlle.Api.Pods.{PodCheckpoint}
use pod_checkpoint_controlle.Containers.{target_node}
use pod_checkpoint_controlle.Pods.{target_of}
use pod_checkpoint_controlle.Pods.Members.{annotate, or_nil, member_name, fill_in}

insert-insert : (k v : String) (m : Dict) → insert k v (insert k v m) ≡ insert k v m
unfolding insert
insert-insert k v [] = rw (eq_refl k)
insert-insert k v ((j, w) ∷ m) = ground (arith, eq_refl k, insert-insert k v m)

annotate-annotate : (t : String) (m : GoMap) → annotate t (annotate t m) ≡ annotate t m
annotate-annotate t none = ground (arith, insert-insert target_node t [])
annotate-annotate t (some m) = ground (arith, insert-insert target_node t m)

or_nil-or_nil : (o : Option String) (v : String) → or_nil (or_nil o v) v ≡ or_nil o v
or_nil-or_nil none v = refl
or_nil-or_nil (some w) v = refl

policy-policy :
    (d e : String)
    → (if (if d == "" then e else d) == "" then e else (if d == "" then e else d))
      ≡ (if d == "" then e else d)
policy-policy d e = ground arith

-- The mutate function of step 8 is idempotent: what it made of an object for a pod and a container
-- it leaves as it is, so that a second `CreateOrUpdate` has nothing to change.
pub fill_in-fill_in :
    (pc : PodCheckpoint) (p : Pod) (c : Container) (m : ContainerCheckpoint)
    → fill_in pc p c (fill_in pc p c m) ≡ fill_in pc p c m
unfolding fill_in
fill_in-fill_in pc p c m = rw (
  annotate-annotate (target_of pc) m.metadata.annotations,
  or_nil-or_nil m.spec.source.pod_name p.metadata.name,
  or_nil-or_nil m.spec.source.container_name c.name,
  policy-policy m.spec.deletion_policy pc.spec.deletion_policy,
)

-- The name of a ContainerCheckpoint does not determine its PodCheckpoint and its container: a dash
-- may belong to either.
pub member_name_ambiguous :
    (a b c : String) → member_name a (b <> "-" <> c) ≡ member_name (a <> "-" <> b) c
member_name_ambiguous a b c =
    rw (append_assoc a ("-" <> b) ("-" <> c), append_assoc "-" b ("-" <> c)) refl
