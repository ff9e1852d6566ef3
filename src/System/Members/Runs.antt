-- ===== src/System/Members/Runs.antt =====
-- All members of a PodCheckpoint, one after another.
use pod_checkpoint_controlle.Prelude.{
  String, ◌==◌, ◌≡◌, refl, ◌∙◌, true, false, some, List, [], ◌∷◌,
}
use pod_checkpoint_controlle.Prelude.All.{All, All-map, All-zip}
use pod_checkpoint_controlle.Api.Meta.{Container, Pod}
use pod_checkpoint_controlle.Api.Pods.{PodCheckpoint}
use pod_checkpoint_controlle.Api.Objects.{container_checkpoint, pod}
use pod_checkpoint_controlle.Kube.Client.{Kube}
use pod_checkpoint_controlle.Kube.Table.{Table, find, find-store}
use pod_checkpoint_controlle.Kube.Laws.{Serves}
use pod_checkpoint_controlle.Containers.{has_container}
use pod_checkpoint_controlle.Pods.{target_of}
use pod_checkpoint_controlle.Pods.Members.{member_key}
use pod_checkpoint_controlle.Pods.Aggregate.{is_restorable, all_restorable}
use pod_checkpoint_controlle.Pods.Fresh.{IsFresh, IsFresh-Spares}
use pod_checkpoint_controlle.Sidecar.Host.{Host}
use pod_checkpoint_controlle.Sidecar.Kubelet.Polls.{BacksOff}
use pod_checkpoint_controlle.Sidecar.Manager.{CheckpointReconciler}
use pod_checkpoint_controlle.Sidecar.Steps.{IsWorking}
use pod_checkpoint_controlle.System.Members.{run_member, run_member_lem}
use pod_checkpoint_controlle.Pods.Frame.{
  IsOther, Distinct, IsOther-sym, Spares, Spares-nil, Spares-cons, Spares-store,
}

module _ (K : Kube) (H : Host K.State) (r : CheckpointReconciler) (pc : PodCheckpoint) where
  unfoldable pub run_members : List Container → K.State → K.State
  run_members [] s = s
  run_members (c ∷ cs) s = run_members cs (run_member K H r pc c s)

module _ (K : Kube) (L : Serves K) (H : Host K.State) (B : BacksOff H) (r : CheckpointReconciler)
    (f : String) (fs : List String) (pc : PodCheckpoint) (p : Pod)
    (filled : (target_of pc == "") ≡ false) (W : IsWorking K L H B (target_of pc) f fs)
    (here : (p.spec.node_name == r.node_name) ≡ true) where
  abbrev IsPlaced : Table → Type 0
  IsPlaced t =
      find t pod (record { namespace = pc.metadata.namespace; name = p.metadata.name }) ≡ some p

  -- One member is done, and the others are as they were.
  one_done :
      (c : Container) (s : K.State)
      → has_container c.name p.spec.containers ≡ true
      → IsPlaced (L.table s)
      → IsFresh pc p (L.table s) c
      → (is_restorable
            (find (L.table (run_member K H r pc c s)) container_checkpoint (member_key pc c))
          ≡ true)
        × Spares pc (c ∷ []) (L.table s) (L.table (run_member K H r pc c s))
  one_done c s contained there v =
      let (m, content, table, ready, fine) =
        run_member_lem K L H B r f fs pc p filled W here c contained s there v in
      (
        rw (table, find-store container_checkpoint (member_key pc c) (some m), ready, fine) refl,
        Spares-store pc c m content table,
      )

  -- Of members that are fresh and whose names differ, with a server that serves the runs one after
  -- another and a sidecar that works: after the runs of each of them all are ready, and nothing but
  -- the members and their contents has changed.
  pub run_members_lem :
      (cs : List Container) (s : K.State)
      → Distinct cs
      → All (λ c. has_container c.name p.spec.containers ≡ true) cs
      → IsPlaced (L.table s)
      → All (IsFresh pc p (L.table s)) cs
      → (all_restorable (L.table (run_members K H r pc cs s)) pc cs ≡ true)
        × Spares pc cs (L.table s) (L.table (run_members K H r pc cs s))
  unfolding run_members
  run_members_lem [] s distinct contained there fresh = (refl, Spares-nil pc (L.table s))
  run_members_lem (c ∷ cs) s distinct contained there fresh =
      let (done, spares) = one_done c s contained.0 there fresh.0 in
      let u : K.State = run_member K H r pc c s in
      let (rest, kept) = run_members_lem cs u distinct.1 contained.1 (spares.pods _ ∙ there) (
        All-zip (IsOther c) (IsFresh pc p (L.table s)) (IsFresh pc p (L.table u))
          (λ d other. IsFresh-Spares pc p d spares (other, tt)) cs distinct.0 fresh.1) in
      let same =
        kept.members c
          (All-map (IsOther c) (λ d. IsOther d c) (λ d. IsOther-sym c d) cs distinct.0) in
      (rw (rest, same, done) refl, Spares-cons pc spares kept)
