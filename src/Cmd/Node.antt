-- ===== src/Cmd/Node.antt =====
-- cmd/sidecar/main.go: the start of the sidecar's process.
pub mod Exits
use pod_checkpoint_controlle.Prelude.{ℕ, String, false, [], ◌∷◌}
use pod_checkpoint_controlle.Go.Flow.{Flow, exit, ◌>>=◌, ◌>>◌, call, or_else, answer}
use pod_checkpoint_controlle.Sidecar.Host.{Host}
use pod_checkpoint_controlle.Sidecar.Manager.{create_checkpoint_reconciler}
use pod_checkpoint_controlle.Cmd.{ManagerOptions, Launcher, set_up_contents, or_exit}

pub record Flags : Type 0 where
  pub metrics_addr : String
  pub probe_addr : String

-- The flags of an empty command line.
unfoldable pub default_flags : Flags
default_flags = record { metrics_addr = ":8080"; probe_addr = ":8081" }

-- The fields that the program does not set have Go's zero values.
unfoldable pub manager_options : Flags → ManagerOptions
manager_options f = record {
  metrics = record {
    bind_address = f.metrics_addr;
    secure_serving = false;
    filtered = false;
    tls_opts = [];
  };
  webhook_tls_opts = [];
  health_probe_bind_address = f.probe_addr;
  leader_election = false;
  leader_election_id = "";
  default_namespaces = [];
}

module _ {S : Type 0} (H : Host S) (M : Launcher S) where
  -- `main`, after the flags are parsed: the exit status. The name of the node is only logged here.
  unfoldable pub main : Flags → S → ℕ × S
  unfolding manager_options set_up_contents
  main f s = answer (
      (do
        node ← call (H.getenv "NODE_NAME")
        e ← call (M.new_manager (manager_options f))
        or_exit e
        made ← call (create_checkpoint_reconciler H)
        reconciler ← or_else made (λ _. exit 1)
        failure ← call (set_up_contents M)
        or_exit failure
        stopped ← call M.start
        or_exit stopped
        exit 0)
        s)
