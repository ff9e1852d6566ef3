-- ===== src/Pods/Rewritten.antt =====
-- What does not change for a PodCheckpoint that a run has written.
use pod_checkpoint_controlle.Prelude.{ℕ, String, eq_refl, ◌≡◌, refl, true, List, [], ◌∷◌, arith}
use pod_checkpoint_controlle.Prelude.All.{All, All-map}
use pod_checkpoint_controlle.Api.Meta.{Container, Pod}
use pod_checkpoint_controlle.Api.Pods.{PodCheckpoint, PodCheckpointStatus}
use pod_checkpoint_controlle.Kube.Table.{Table}
use pod_checkpoint_controlle.Containers.{has_container}
use pod_checkpoint_controlle.Pods.Members.{fill_in}
use pod_checkpoint_controlle.Pods.Aggregate.{all_restorable}
use pod_checkpoint_controlle.Pods.Fresh.{IsFresh}

has_container-cons :
    (name : String) (c : Container) (cs : List Container)
    → has_container name cs ≡ true
    → has_container name (c ∷ cs) ≡ true
unfolding has_container
has_container-cons name c cs h = ground (arith, h)

-- A pod has each of its containers.
pub has_container-All : (cs : List Container) → All (λ c. has_container c.name cs ≡ true) cs
unfolding has_container
has_container-All [] = tt
has_container-All (c ∷ cs) = (
  rw (eq_refl c.name) refl,
  All-map (λ d. has_container d.name cs ≡ true) (λ d. has_container d.name (c ∷ cs) ≡ true)
      (λ d. has_container-cons d.name c cs) cs (has_container-All cs),
)

-- The checkpoint with other finalizers, another version and another status has the same members.
abbrev pub rewritten : PodCheckpoint → List String → ℕ → PodCheckpointStatus → PodCheckpoint
rewritten pc finalizers version status = record pc {
  metadata = record pc.metadata { finalizers = finalizers; resource_version = version };
  status = status;
}

pub all_restorable-rewritten :
    (t : Table) (pc : PodCheckpoint) (l : List String) (w : ℕ) (st : PodCheckpointStatus)
    (cs : List Container)
    → all_restorable t (rewritten pc l w st) cs ≡ all_restorable t pc cs
all_restorable-rewritten t pc l w st [] = refl
all_restorable-rewritten t pc l w st (c ∷ cs) = rw (all_restorable-rewritten t pc l w st cs) refl

pub IsFresh-rewritten :
    (t : Table) (pc : PodCheckpoint) (p : Pod) (l : List String) (w : ℕ) (st : PodCheckpointStatus)
    (c : Container)
    → IsFresh (rewritten pc l w st) p t c
    → IsFresh pc p t c
unfolding fill_in
IsFresh-rewritten t pc p l w st c v = record {
  version = v.version;
  uid = v.uid;
  stored = v.stored;
  absent = v.absent;
}
