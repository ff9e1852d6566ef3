-- ===== src/Sidecar/Steps.antt =====
-- The steps 3 to 8 of `CheckpointReconciler.Reconcile` when they make a checkpoint, against a server that serves it
-- alone, a kubelet that answers with files and a target that takes them.
use pod_checkpoint_controlle.Prelude.{
  ℕ, String, ◌==◌, ◌≡◌, refl, ◌∙◌, true, false, none, some, List, [], ◌∷◌, arith,
}
use pod_checkpoint_controlle.Go.Flow.{Reply, finished, next, Flow, ◌>>=◌, ◌>>◌, call, answer}
use pod_checkpoint_controlle.Go.Costs.{Measure}
use pod_checkpoint_controlle.Api.Meta.{ObjectKey, key_of, Pod}
use pod_checkpoint_controlle.Api.Containers.{
  ContainerCheckpoint, ContainerCheckpointContent, ContainerCheckpointRef,
}
use pod_checkpoint_controlle.Api.Objects.{container_checkpoint, container_checkpoint_content, pod}
use pod_checkpoint_controlle.Kube.Client.{Kube}
use pod_checkpoint_controlle.Kube.Table.{Table, find, store, stamped, find-store, store-store}
use pod_checkpoint_controlle.Kube.Laws.{Serves}
use pod_checkpoint_controlle.Kube.Sequential.{get-found, retry-settles}
use pod_checkpoint_controlle.Containers.{cluster_key}
use pod_checkpoint_controlle.Sidecar.Host.{Host}
use pod_checkpoint_controlle.Sidecar.Kubelet.{create_checkpoint}
use pod_checkpoint_controlle.Sidecar.Kubelet.Polls.{BacksOff}
use pod_checkpoint_controlle.Sidecar.Kubelet.Success.{Checkpoints, create_checkpoint_succeeds}
use pod_checkpoint_controlle.Sidecar.Transfer.{transfer_checkpoint}
use pod_checkpoint_controlle.Sidecar.Delivery.{Delivers, transfer_checkpoint_succeeds}
use pod_checkpoint_controlle.Sidecar.Costs.{Priced}
use pod_checkpoint_controlle.Sidecar.Costs.Transfers.{transfer_checkpoint-within}
use pod_checkpoint_controlle.Sidecar.Costs.Kubelets.{create_checkpoint-within}
use pod_checkpoint_controlle.Sidecar.Manager.{CheckpointReconciler}
use pod_checkpoint_controlle.Sidecar.Reconciler.{
  target_of_location, marked_ready, marked_started, ready_attempt, update_status_ready,
  fetch_parent, source_names, checkpoint, take_checkpoint, transfer_all, transfer_files,
}

-- What leaves a view of the state alone, as a measure: every way that keeps it is free.
abbrev pub keeping : {S V : Type 0} → (S → V) → Measure S
keeping view = record {
  within = λ n s t. view t ≡ view s;
  rest = λ s. refl;
  chain = λ a b. b ∙ a;
  relax = λ h k. k;
}

-- A node that leaves the API server's objects alone, whose kubelet answers with the files `f ∷ fs`
-- and from which a target node can be reached.
pub record IsWorking (K : Kube) (L : Serves K) (H : Host K.State) (B : BacksOff H)
    (target f : String) (fs : List String) : Type 0 where
  pub apart : Priced (keeping L.table) H 0 0
  pub pauses : (s : K.State) → L.table (B.pause s) ≡ L.table s
  pub lists :
      (label value : String) (s : K.State) → L.table (K.list_pods label value s).1 ≡ L.table s
  pub checkpoints : Checkpoints H f fs
  pub delivers : Delivers K H target

-- A content that is stored, not being deleted, not ready and not begun, whose parent asks for a
-- container of a pod on the reconciler's node.
pub record IsDue (t : Table) (r : CheckpointReconciler) (c : ContainerCheckpointContent)
    (cc : ContainerCheckpoint) (p : Pod) : Type 0 where
  pub placed : key_of c.metadata ≡ cluster_key c.metadata.name
  pub stored : find t container_checkpoint_content (key_of c.metadata) ≡ some c
  pub live : c.metadata.deletion_timestamp ≡ none
  pub ref : ContainerCheckpointRef
  pub referred : c.spec.container_checkpoint_ref ≡ some ref
  pub parent :
      find t container_checkpoint (record { namespace = ref.namespace; name = ref.name }) ≡ some cc
  pub pod_name : String
  pub pod_named : cc.spec.source.pod_name ≡ some pod_name
  pub container_name : String
  pub container_named : cc.spec.source.container_name ≡ some container_name
  pub unready : c.status.ready_to_restore ≡ false
  pub unbegun : c.status.checkpoint_time ≡ none
  pub pod_stored :
      find t pod (record { namespace = cc.metadata.namespace; name = pod_name }) ≡ some p
  pub here : (p.spec.node_name == r.node_name) ≡ true
  pub located : (c.spec.storage_location == "") ≡ false

-- The steps 3 to 8, on a content that has its finalizer.
abbrev pub rest_of_run :
    (K : Kube)
    → Host K.State
    → CheckpointReconciler
    → ContainerCheckpointContent
    → Flow Reply K.State Reply
rest_of_run K H r c = do
  cc ← fetch_parent K c
  names ← source_names K c cc
  checkpoint K H r c cc names

module _ (K : Kube) (L : Serves K) where
  -- Step 8: the content is marked as ready, at a time that is read after it.
  update_status_ready_lem :
      (c : ContainerCheckpointContent) (s : K.State)
      → find (L.table s) container_checkpoint_content (key_of c.metadata) ≡ some c
      → key_of c.metadata ≡ cluster_key c.metadata.name
      → (t w : ℕ) × ((update_status_ready K c s).0 ≡ finished)
        × (L.table (update_status_ready K c s).1
            ≡ store container_checkpoint_content
                (key_of c.metadata)
                (some (stamped container_checkpoint_content w (marked_ready t c)))
                (L.table s))
  unfolding update_status_ready ready_attempt
  update_status_ready_lem c s stored placed =
      let key = cluster_key c.metadata.name in
      let read : K.State = (K.get container_checkpoint_content key s).1 in
      let found = get-found K L container_checkpoint_content key c s (rw (← placed) stored) in
      let timed : K.State = (K.now read).1 in
      let t = (K.now read).0 in
      let same : L.table timed ≡ L.table s = rw (L.now-table, L.get-table) refl in
      let stored' : find (L.table timed) container_checkpoint_content (key_of c.metadata) ≡ some c =
        rw same stored in
      let wrote =
        L.update_status-result container_checkpoint_content (marked_ready t c) c timed stored'
          refl in
      let table =
        L.update_status-table container_checkpoint_content (marked_ready t c) c timed stored'
          refl in
      let settles : K.retry_on_conflict (ready_attempt K c) s ≡ ready_attempt K c s =
        retry-settles K L (ready_attempt K c) s (ground (arith, found, wrote)) in
      (
        t,
        L.fresh timed,
        ground (arith, settles, found, wrote),
        ground (arith, settles, found, wrote, table, same),
      )

module _ (K : Kube) (L : Serves K) (H : Host K.State) (B : BacksOff H) (r : CheckpointReconciler)
    (c : ContainerCheckpointContent) (f : String) (fs : List String)
    (W : IsWorking K L H B (target_of_location c.spec.storage_location) f fs) where
  -- Step 7: every file is transferred, and no object is touched.
  transfer_all_lem :
      (ccc : ContainerCheckpointContent) (files : List String) (s : K.State)
      → ((transfer_all K H r ccc (target_of_location c.spec.storage_location) files s).0 ≡ next tt)
        × (L.table (transfer_all K H r ccc (target_of_location c.spec.storage_location) files s).1
            ≡ L.table s)
  unfolding transfer_all
  transfer_all_lem ccc [] s = (refl, refl)
  transfer_all_lem ccc (file ∷ files) s =
      let target = target_of_location c.spec.storage_location in
      let sent = transfer_checkpoint_succeeds K H target W.delivers file s in
      let kept = transfer_checkpoint-within K (keeping L.table) H W.apart W.lists file target s in
      let rest = transfer_all_lem ccc files (transfer_checkpoint K H file target s).1 in
      (ground (arith, sent, rest.0), ground (arith, sent, rest.1, kept))

module _ (K : Kube) (L : Serves K) (H : Host K.State) (r : CheckpointReconciler)
    (c : ContainerCheckpointContent) (cc : ContainerCheckpoint) (p : Pod) (s : K.State)
    (v : IsDue (L.table s) r c cc p) where
  abbrev key : ObjectKey
  key = key_of c.metadata

  abbrev after_parent : K.State
  after_parent =
      (K.get container_checkpoint (record { namespace = v.ref.namespace; name = v.ref.name }) s).1

  abbrev pub after_pod : K.State
  after_pod =
      (K.get pod (record { namespace = cc.metadata.namespace; name = v.pod_name }) after_parent).1

  abbrev begun : ContainerCheckpointContent
  begun = marked_started (K.now after_pod).0 c

  abbrev pub at_mark : K.State
  at_mark = (K.now after_pod).1

  abbrev pub after_mark : K.State
  after_mark = (K.patch_status container_checkpoint_content c begun at_mark).1

  abbrev pub started : ContainerCheckpointContent
  started = stamped container_checkpoint_content (L.fresh at_mark) begun

  table-at_mark : L.table at_mark ≡ L.table s
  table-at_mark = rw (L.now-table, L.get-table, L.get-table) refl

  stored_at_mark : find (L.table at_mark) container_checkpoint_content key ≡ some c
  stored_at_mark = rw table-at_mark v.stored

  pub table-after_mark :
      L.table after_mark ≡ store container_checkpoint_content key (some started) (L.table s)
  table-after_mark =
      L.patch_status-table container_checkpoint_content c begun at_mark stored_at_mark
      ∙ rw table-at_mark refl

  -- The steps 3 to 6, up to the mark that the checkpoint is begun.
  pub rest-begun :
      answer (rest_of_run K H r c s)
      ≡ answer (
          (do
            files ← take_checkpoint K H r started cc v.pod_name v.container_name
            transfer_files K H r started files
            call (update_status_ready K started))
            after_mark)
  unfolding fetch_parent source_names checkpoint
  rest-begun =
      let parent =
        get-found K L container_checkpoint
          (record { namespace = v.ref.namespace; name = v.ref.name }) cc s v.parent in
      let seen =
        get-found K L pod (record { namespace = cc.metadata.namespace; name = v.pod_name }) p
          after_parent (rw L.get-table v.pod_stored) in
      let marked =
        L.patch_status-result container_checkpoint_content c begun at_mark stored_at_mark in
      ground (
        parent, seen, marked, v.referred, v.pod_named, v.container_named, v.unready, v.unbegun,
        v.here, arith,
      )

  module _ (B : BacksOff H) (f : String) (fs : List String)
      (W : IsWorking K L H B (target_of_location c.spec.storage_location) f fs) where
    -- The run ends with the content marked as ready, and nothing else is written.
    abbrev pub Marked : ContainerCheckpointContent → K.State → Reply × K.State → Type 0
    Marked d u q =
        (t w : ℕ) × (q.0 ≡ finished)
        × (L.table q.1
            ≡ store container_checkpoint_content (key_of d.metadata)
                (some (stamped container_checkpoint_content w (marked_ready t d))) (L.table u))

    after_files : K.State
    after_files =
        (create_checkpoint H r.checkpoint_mgr.node_name cc.metadata.namespace v.pod_name
          v.container_name after_mark).1

    after_transfer : K.State
    unfolding after_files
    after_transfer =
        (transfer_all K H r started (target_of_location c.spec.storage_location) (f ∷ fs)
          after_files).1

    table-after_files : L.table after_files ≡ L.table after_mark
    unfolding after_files
    table-after_files =
        create_checkpoint-within (keeping L.table) H W.apart B W.pauses r.checkpoint_mgr.node_name
          cc.metadata.namespace v.pod_name v.container_name after_mark

    table-after_transfer : L.table after_transfer ≡ L.table after_mark
    unfolding after_transfer
    table-after_transfer =
        (transfer_all_lem K L H B r c f fs W started (f ∷ fs) after_files).1 ∙ table-after_files

    -- The steps 6 and 7.
    rest-transferred : answer (rest_of_run K H r c s) ≡ update_status_ready K started after_transfer
    unfolding after_transfer after_files take_checkpoint transfer_files
    rest-transferred =
        let made =
          create_checkpoint_succeeds H B f fs W.checkpoints r.checkpoint_mgr.node_name
            cc.metadata.namespace v.pod_name v.container_name after_mark in
        let sent = (transfer_all_lem K L H B r c f fs W started (f ∷ fs) after_files).0 in
        rest-begun ∙ ground (arith, made, sent, v.located)

    stored_after_transfer :
        find (L.table after_transfer) container_checkpoint_content key ≡ some started
    stored_after_transfer =
        rw (table-after_transfer, table-after_mark)
          (find-store container_checkpoint_content key (some started) (L.table s))

    -- The steps 3 to 8.
    pub rest-Marked : Marked c s (answer (rest_of_run K H r c s))
    rest-Marked =
        let done =
          update_status_ready_lem K L started after_transfer stored_after_transfer v.placed in
        (
          done.0,
          done.1,
          rw rest-transferred done.2,
          rw rest-transferred (
              done.3
              ∙ rw (table-after_transfer, table-after_mark)
                  (store-store container_checkpoint_content key (some started) _ (L.table s))),
        )
