-- ===== src/Sidecar/Manager.antt =====
-- internal/sidecar/checkpoint_manager.go: `CheckpointManager`, its constructor and the cleanup of
-- a content's files; and `CreateCheckpointReconciler` of internal/sidecar/sidecar_checkpoint.go.
use pod_checkpoint_controlle.Prelude.{
  String, ◌<>◌, ◌==◌, Option, none, some, List, [], ◌∷◌, if◌then◌else◌,
}
use pod_checkpoint_controlle.Go.Errors.{GoError, Result, ok, err, errorf, wrap}
use pod_checkpoint_controlle.Go.Flow.{exit, proceed, ◌>>=◌, ◌>>◌, call, unless_nil, or_else, answer}
use pod_checkpoint_controlle.Sidecar.Host.{Host}
use pod_checkpoint_controlle.Sidecar.Server.{Server, new_server}
use pod_checkpoint_controlle.Sidecar.Transfer.{port_or_default}

-- `CheckpointManager`, without its client, clientset and logger.
pub record CheckpointManager : Type 0 where
  pub checkpoint_dir : String
  pub node_name : String
  pub http_server : Server

-- `CheckpointReconciler`, likewise.
pub record CheckpointReconciler : Type 0 where
  pub checkpoint_mgr : CheckpointManager
  pub node_name : String

abbrev pub checkpoint_directory : String
checkpoint_directory = "/var/lib/kubelet/checkpoints"

abbrev pub node_name_required : GoError
node_name_required = errorf "NODE_NAME environment variable is required"

module _ {S : Type 0} (H : Host S) where
  -- `NewCheckpointManager`. The server that it makes is started in a goroutine of its own, which
  -- is `Server.start`.
  unfoldable pub new_checkpoint_manager : S → Result CheckpointManager × S
  unfolding new_server
  new_checkpoint_manager s = answer (
      (do
        node ← call (H.getenv "NODE_NAME")
        (if node == "" then exit (err node_name_required) else proceed tt)
        e ← call H.in_cluster_config
        unless_nil e (λ x. exit (err (wrap "failed to get in-cluster config" x)))
        c ← call H.new_clientset
        unless_nil c (λ x. exit (err (wrap "failed to create clientset" x)))
        port ← call (H.getenv "HTTP_PORT")
        exit (
            ok (record {
              checkpoint_dir = checkpoint_directory;
              node_name = node;
              http_server = new_server checkpoint_directory (port_or_default port);
            })))
        s)

  -- `CreateCheckpointReconciler`
  unfoldable pub create_checkpoint_reconciler : S → Result CheckpointReconciler × S
  unfolding new_checkpoint_manager
  create_checkpoint_reconciler s = answer (
      (do
        node ← call (H.getenv "NODE_NAME")
        (if node == "" then exit (err node_name_required) else proceed tt)
        made ← call new_checkpoint_manager
        manager ← or_else made (λ e. exit (err (wrap "failed to create checkpoint manager" e)))
        exit (ok (record { checkpoint_mgr = manager; node_name = node })))
        s)

  -- The loop of `CleanupCheckpointFiles`; an error of one file is only logged.
  unfoldable pub remove_all : List String → S → S
  remove_all [] s = s
  remove_all (f ∷ fs) s = remove_all fs (H.remove f s).1

  -- `CleanupCheckpointFiles`
  unfoldable pub cleanup_checkpoint_files : CheckpointManager → String → S → Option GoError × S
  unfolding remove_all
  cleanup_checkpoint_files cm content_name s =
      let (matches, s') = H.glob (H.join cm.checkpoint_dir (content_name <> "-*")) s in
      elim matches [ err e ↦ (some e, s') | ok files ↦ (none, remove_all files s') ]
