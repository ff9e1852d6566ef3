-- ===== src/System/Checkpoints.antt =====
-- A container checkpoint from its request to its end: the controller of
-- internal/controller/containercheckpoint_controller.go and the sidecar of the pod's node, in turn.
use Prim.Native.String.{len}
use text.Mathlib.TextPositions.{len-append}
use pod_checkpoint_controlle.Prelude.{
  ap, eq_iff, ◌<>◌, ℕ, String, ◌==◌, ◌≡◌, refl, ◌∙◌, true, false, Option, none, some, List, arith,
  Bool-cases, Option-cases, inl, inr,
}
use pod_checkpoint_controlle.Prelude.Dict.{index}
use pod_checkpoint_controlle.Go.Flow.{finished}
use pod_checkpoint_controlle.Api.Meta.{ObjectKey, key_of, Pod}
use pod_checkpoint_controlle.Api.Containers.{ContainerCheckpoint, ContainerCheckpointContent}
use pod_checkpoint_controlle.Api.Objects.{container_checkpoint, container_checkpoint_content}
use pod_checkpoint_controlle.Kube.Client.{Kube}
use pod_checkpoint_controlle.Kube.Table.{Table, find, store, stamped, find-store, store-store}
use pod_checkpoint_controlle.Kube.Laws.{Serves, admitted}
use pod_checkpoint_controlle.Containers.{
  cluster_key, storage_location, new_content, reconcile as reconcile_checkpoint, target_node,
}
use pod_checkpoint_controlle.Containers.Validated.{IsValidated}
use pod_checkpoint_controlle.Containers.Content.{reconcile-creates, reconcile-mirrored}
use pod_checkpoint_controlle.Sidecar.Host.{Host}
use pod_checkpoint_controlle.Sidecar.Kubelet.Polls.{BacksOff}
use pod_checkpoint_controlle.Sidecar.Manager.{CheckpointReconciler}
use pod_checkpoint_controlle.Sidecar.Reconciler.{
  sidecar_finalizer, target_of_location, reconcile as reconcile_content,
}
use pod_checkpoint_controlle.Sidecar.Steps.{IsWorking, IsDue}
use pod_checkpoint_controlle.Sidecar.Run.{reconcile-checkpoints, reconcile-guards}

scheme_filled : (t : String) → ("node://" <> t == "") ≡ false
scheme_filled t = elim (Bool-cases ("node://" <> t == "")) [
  | inl h ↦
      absurd (omega (arith, ap len ((eq_iff ("node://" <> t) "").0 h), len-append "node://" t))
  | inr h ↦ h
]

storage_location_filled : (c : ContainerCheckpoint) → (storage_location c == "") ≡ false
unfolding storage_location
storage_location_filled c = elim (Option-cases (index target_node c.metadata.annotations)) [
  | inl e ↦ rw (e, storage_location) refl
  | inr (t, e) ↦ elim (Bool-cases (t == "")) [
    | inl h ↦ rw (e, storage_location, h) refl
    | inr h ↦ rw (e, storage_location, h) (scheme_filled t)
  ]
]

module _ (K : Kube) (L : Serves K) (H : Host K.State) (B : BacksOff H) (r : CheckpointReconciler)
    (f : String) (fs : List String) (cc : ContainerCheckpoint) (p : Pod)
    (W : IsWorking K L H B (target_of_location (storage_location cc)) f fs)
    (unbound : cc.status.bound_container_checkpoint_content_name ≡ none)
    (here : (p.spec.node_name == r.node_name) ≡ true) where
  abbrev content_key : ObjectKey
  content_key = cluster_key cc.metadata.name

  -- What the controller asks of its checkpoint holds still when a content is written.
  valid-store :
      {t u : Table} (x : Option ContainerCheckpointContent)
      → u ≡ store container_checkpoint_content content_key x t
      → IsValidated K t cc p
      → IsValidated K u cc p
  valid-store x e v = record {
    stored = rw e v.stored;
    live = v.live;
    guarded = v.guarded;
    dynamic = v.dynamic;
    pod_name = v.pod_name;
    pod_named = v.pod_named;
    container_name = v.container_name;
    container_named = v.container_named;
    pod_stored = rw e v.pod_stored;
    contained = v.contained;
  }

  -- The content is there, and it is marked as ready.
  abbrev pub IsTaken : Table → Table → Type 0
  IsTaken t u =
      (c : ContainerCheckpointContent) × (u
        ≡ store container_checkpoint_content content_key (some c) t)
      × (c.status.ready_to_restore ≡ true)
      × (c.status.error_message ≡ "")

  module _ (s : K.State) (v : IsValidated K (L.table s) cc p) (w : ℕ) (uid : String) (t : Table)
      (created : L.table s
        ≡ store container_checkpoint_content content_key
            (some (
              stamped container_checkpoint_content w
                (admitted container_checkpoint_content uid (new_content cc))))
            t) where
    abbrev new : ContainerCheckpointContent
    new =
        stamped container_checkpoint_content w
          (admitted container_checkpoint_content uid (new_content cc))

    due : IsDue (L.table s) r new cc p
    unfolding new_content
    due = record {
      placed = refl;
      stored = rw created (find-store container_checkpoint_content content_key (some new) t);
      live = refl;
      ref = record { name = cc.metadata.name; namespace = cc.metadata.namespace };
      referred = refl;
      parent = v.stored;
      pod_name = v.pod_name;
      pod_named = v.pod_named;
      container_name = v.container_name;
      container_named = v.container_named;
      unready = refl;
      unbegun = refl;
      pod_stored = v.pod_stored;
      here = here;
      located = storage_location_filled cc;
    }

    sidecar_takes : IsTaken (L.table s) (L.table (reconcile_content K H r content_key s).1)
    unfolding new_content
    sidecar_takes =
        elim (Bool-cases (K.contains_finalizer new.metadata.finalizers sidecar_finalizer)) [
          | inl guarded ↦
              let q = reconcile-checkpoints K L H B r new f fs W cc p s due guarded in
              (_, q.3, refl, refl)
          | inr bare ↦
              let q = reconcile-guards K L H B r new f fs W cc p s due bare in (_, q.3, refl, refl)
        ]

  module _ (s : K.State) (v : IsValidated K (L.table s) cc p)
      (absent : find (L.table s) container_checkpoint_content content_key ≡ none) where
    abbrev key : ObjectKey
    key = key_of cc.metadata

    -- The three runs: the controller, the sidecar, and the controller again.
    abbrev asked : K.State
    asked = (reconcile_checkpoint K key s).1

    abbrev taken : K.State
    taken = (reconcile_content K H r content_key asked).1

    abbrev bound : K.State
    bound = (reconcile_checkpoint K key taken).1

    -- Of a stored checkpoint that is not being deleted, has its finalizer, does not ask for existing
    -- content, asks for a container of a
    -- stored pod, is not bound, and has no content yet, with a server that serves the runs one after
    -- another, a sidecar on the pod's node whose kubelet answers with files, and a sidecar at the
    -- place where they are to be stored that takes them: after a run of the controller, one of the
    -- sidecar and another one of the controller, the checkpoint is stored as ready, with no error,
    -- bound to its content, which is stored too; no other object has changed, and the last run asks
    -- for no other one.
    pub checkpoint-completes :
        (cc' : ContainerCheckpoint) × (content : ContainerCheckpointContent) × (L.table bound
          ≡ store container_checkpoint key
              (some cc')
              (store container_checkpoint_content content_key (some content) (L.table s)))
        × (cc'.status.ready_to_restore ≡ true)
        × (cc'.status.error_message ≡ "")
        × (cc'.status.bound_container_checkpoint_content_name ≡ some cc.metadata.name)
        × ((reconcile_checkpoint K key taken).0 ≡ finished)
    checkpoint-completes =
        let (w, uid, _, created) = reconcile-creates K L cc p s v unbound absent in
        let v' = valid-store _ created v in
        let (content, marked, ready, fine) = sidecar_takes asked v' w uid (L.table s) created in
        let v'' = valid-store (some content) marked v' in
        let there : find (L.table taken) container_checkpoint_content content_key ≡ some content =
          rw marked
            (find-store container_checkpoint_content content_key (some content) (L.table asked)) in
        let last = reconcile-mirrored K L cc p taken v'' unbound content there ready in
        let kept : L.table taken
            ≡ store container_checkpoint_content content_key (some content) (L.table s) =
          marked
          ∙ rw created
              (store-store container_checkpoint_content content_key _ (some content) (L.table s)) in
        (
          stamped container_checkpoint last.0 (record cc {
            status = record {
              bound_container_checkpoint_content_name = some cc.metadata.name;
              ready_to_restore = true;
              error_message = content.status.error_message;
              checkpoint_time = content.status.checkpoint_time;
            };
          }),
          content,
          last.2 ∙ rw kept refl,
          refl,
          fine,
          refl,
          last.1,
        )
