-- ===== src/Pods/Aggregate.antt =====
-- What the loop of step 9 computes, against a server that serves it alone.
use pod_checkpoint_controlle.Prelude.{
  String, ◌==◌, ◌≡◌, refl, Bool, true, false, ◌&&◌, Option, none, some, List, [], ◌∷◌, arith,
  if◌then◌else◌,
}
use pod_checkpoint_controlle.Api.Meta.{Container}
use pod_checkpoint_controlle.Api.Containers.{ContainerCheckpoint}
use pod_checkpoint_controlle.Api.Pods.{PodCheckpoint}
use pod_checkpoint_controlle.Api.Objects.{container_checkpoint}
use pod_checkpoint_controlle.Kube.Client.{Kube}
use pod_checkpoint_controlle.Kube.Table.{Table, find}
use pod_checkpoint_controlle.Kube.Laws.{Serves}
use pod_checkpoint_controlle.Pods.Members.{member_key, aggregate}

-- A ContainerCheckpoint that can be restored: it is ready and reports no error.
abbrev pub is_restorable : Option ContainerCheckpoint → Bool
is_restorable none = false
is_restorable (some c) = c.status.ready_to_restore && (c.status.error_message == "")

-- Every container has one.
abbrev pub all_restorable : Table → PodCheckpoint → List Container → Bool
all_restorable t pc [] = true
all_restorable t pc (c ∷ cs) =
    is_restorable (find t container_checkpoint (member_key pc c)) && all_restorable t pc cs

-- The message of the first ContainerCheckpoint that exists and cannot be restored, or "".
abbrev pub first_message : Table → PodCheckpoint → List Container → String
first_message t pc [] = ""
first_message t pc (c ∷ cs) = elim (find t container_checkpoint (member_key pc c)) [
  | none ↦ first_message t pc cs
  | some m ↦ if is_restorable (some m) then first_message t pc cs else m.status.error_message
]

module _ (K : Kube) (L : Serves K) (pc : PodCheckpoint) where
  -- With a server that serves the loop alone: the loop finds `allReady` exactly when every
  -- container's ContainerCheckpoint exists, is ready and has no error; its message is that of the
  -- first one that exists and falls short; and it changes nothing.
  pub aggregate_lem :
      (cs : List Container) (all_ready : Bool) (s : K.State)
      → ((aggregate K pc cs all_ready s).0
          ≡ (all_ready && all_restorable (L.table s) pc cs, first_message (L.table s) pc cs))
        × (L.table (aggregate K pc cs all_ready s).1 ≡ L.table s)
  unfolding aggregate
  aggregate_lem [] all_ready s = (ground arith, refl)
  aggregate_lem (c ∷ cs) all_ready s =
      let s' : K.State = (K.get container_checkpoint (member_key pc c) s).1 in
      let read = L.get-table container_checkpoint (member_key pc c) s in
      let result = L.get-result container_checkpoint (member_key pc c) s in
      let reason = L.missing_reason container_checkpoint (member_key pc c) in
      let h = aggregate_lem cs all_ready s' in
      let h' = aggregate_lem cs false s' in
      (
        ground (arith, read, result, reason, h.0, h'.0),
        ground (arith, read, result, reason, h.1, h'.1),
      )
