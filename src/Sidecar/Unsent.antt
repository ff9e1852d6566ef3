-- ===== src/Sidecar/Unsent.antt =====
-- A run of `CheckpointReconciler.Reconcile` whose files cannot be sent: internal/sidecar/sidecar_checkpoint.go
-- with internal/sidecar/checkpoint_manager.go.
use pod_checkpoint_controlle.Prelude.{String, ◌<>◌, ◌≡◌, ◌≢◌, refl, Option, none, some, List, inl}
use pod_checkpoint_controlle.Go.Errors.{GoError, ok}
use pod_checkpoint_controlle.Api.Meta.{Pod}
use pod_checkpoint_controlle.Api.Containers.{ContainerCheckpoint, ContainerCheckpointContent}
use pod_checkpoint_controlle.Kube.Client.{Kube}
use pod_checkpoint_controlle.Kube.Laws.{Serves}
use pod_checkpoint_controlle.Sidecar.Host.{Host}
use pod_checkpoint_controlle.Sidecar.Kubelet.{create_checkpoint}
use pod_checkpoint_controlle.Sidecar.Kubelet.Polls.{BacksOff}
use pod_checkpoint_controlle.Sidecar.Kubelet.Success.{Checkpoints}
use pod_checkpoint_controlle.Sidecar.Transfer.{transfer_checkpoint}
use pod_checkpoint_controlle.Sidecar.Transfer.Target.{FirstSidecar}
use pod_checkpoint_controlle.Sidecar.Transfer.Failures.{transfer_checkpoint_fails}
use pod_checkpoint_controlle.Sidecar.Costs.{Priced}
use pod_checkpoint_controlle.Sidecar.Manager.{CheckpointReconciler}
use pod_checkpoint_controlle.Sidecar.Reconciler.{target_of_location}
use pod_checkpoint_controlle.Sidecar.Steps.{keeping, IsDue, after_mark, started}

-- A node that leaves the API server's objects alone and whose kubelet answers with the files `f ∷ fs`,
-- in a cluster where no pod that is the first to run on the target node has an address.
pub record IsCutOff (K : Kube) (L : Serves K) (H : Host K.State) (B : BacksOff H)
    (target f : String) (fs : List String) : Type 0 where
  pub apart : Priced (keeping L.table) H 0 0
  pub pauses : (s : K.State) → L.table (B.pause s) ≡ L.table s
  pub lists :
      (label value : String) (s : K.State) → L.table (K.list_pods label value s).1 ≡ L.table s
  pub checkpoints : Checkpoints H f fs
  pub unreachable :
      (pods : List Pod) (t : K.State)
      → (K.list_pods "app" "container-checkpoint-sidecar" t).0 ≡ ok pods
      → (p : Pod) → FirstSidecar target pods p
      → p.status.pod_ip ≡ ""

error_in : (x : Option GoError) → x ≢ none → (e : GoError) × (x ≡ some e)
error_in none h = absurd (h refl)
error_in (some e) h = (e, refl)

module _ (K : Kube) (L : Serves K) (H : Host K.State) (B : BacksOff H) (r : CheckpointReconciler)
    (c : ContainerCheckpointContent) (f : String) (fs : List String)
    (W : IsCutOff K L H B (target_of_location c.spec.storage_location) f fs)
    (cc : ContainerCheckpoint) (p : Pod) where
  abbrev target : String
  target = target_of_location c.spec.storage_location

  module _ (s : K.State) (v : IsDue (L.table s) r c cc p) where
    abbrev begun : ContainerCheckpointContent
    begun = started K L H r c cc p s v

    abbrev marked : K.State
    marked = after_mark K L H r c cc p s v

    abbrev after_files : K.State
    after_files =
        (create_checkpoint H r.checkpoint_mgr.node_name cc.metadata.namespace v.pod_name
          v.container_name marked).1

    abbrev after_send : K.State
    after_send = (transfer_checkpoint K H f target after_files).1

    failure : (e : GoError) × ((transfer_checkpoint K H f target after_files).0 ≡ some e)
    failure = error_in _ (transfer_checkpoint_fails K H f target (inl W.unreachable) after_files)

    message : String
    message = "failed to transfer checkpoint: " <> failure.0.text
