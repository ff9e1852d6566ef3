-- ===== src/Cmd/Controller.antt =====
-- cmd/main.go: the flags of the controller's process, the options it makes of them, and its start.
use pod_checkpoint_controlle.Prelude.{
  ℕ, String, ◌==◌, Bool, true, false, not, Option, none, some, List, [], ◌∷◌, ◌++◌, if◌then◌else◌,
}
use pod_checkpoint_controlle.Go.Flow.{Flow, proceed, exit, ◌>>=◌, ◌>>◌, call, or_else, answer}
use pod_checkpoint_controlle.Sidecar.Host.{Host}
use pod_checkpoint_controlle.Cmd.{
  TlsConfig, TlsOption, disable_http2, certificate_of, MetricsOptions, ManagerOptions, Launcher,
  set_up_container_checkpoints, set_up_pod_checkpoints, set_up_pod_migrations, or_exit,
}

-- The flags, as the command line sets them.
pub record Flags : Type 0 where
  pub metrics_addr : String
  pub metrics_cert_path : String
  pub metrics_cert_name : String
  pub metrics_cert_key : String
  pub webhook_cert_path : String
  pub webhook_cert_name : String
  pub webhook_cert_key : String
  pub enable_leader_election : Bool
  pub probe_addr : String
  pub secure_metrics : Bool
  pub enable_http2 : Bool

-- The flags of an empty command line.
unfoldable pub default_flags : Flags
default_flags = record {
  metrics_addr = "0";
  metrics_cert_path = "";
  metrics_cert_name = "tls.crt";
  metrics_cert_key = "tls.key";
  webhook_cert_path = "";
  webhook_cert_name = "tls.crt";
  webhook_cert_key = "tls.key";
  enable_leader_election = false;
  probe_addr = ":8081";
  secure_metrics = true;
  enable_http2 = false;
}

-- The option `disableHTTP2`, and that which takes the certificate of a watcher.
unfoldable pub configured : TlsOption → TlsConfig → TlsConfig
configured disable_http2 c = record c { next_protos = "http/1.1" ∷ [] }
configured (certificate_of watcher) c = record c { get_certificate = some watcher }

-- `tlsOpts`
unfoldable pub tls_opts : Flags → List TlsOption
tls_opts f = if not f.enable_http2 then disable_http2 ∷ [] else []

-- `append`, if there is a watcher. The slices have no room to spare, so the two lists that grow from
-- `tlsOpts` share no memory.
unfoldable pub with_watcher : Option ℕ → List TlsOption → List TlsOption
with_watcher none l = l
with_watcher (some watcher) l = l ++ (certificate_of watcher ∷ [])

unfoldable pub metrics_options : Flags → Option ℕ → MetricsOptions
unfolding tls_opts with_watcher
metrics_options f watcher = record {
  bind_address = f.metrics_addr;
  secure_serving = f.secure_metrics;
  filtered = f.secure_metrics;
  tls_opts = with_watcher watcher (tls_opts f);
}

-- The options of the manager, for the watchers of the metrics' and of the webhook's certificate. Of
-- the cache's namespaces, "" stands for all of them.
unfoldable pub manager_options : Flags → Option ℕ → Option ℕ → ManagerOptions
unfolding metrics_options tls_opts with_watcher
manager_options f metrics_watcher webhook_watcher = record {
  metrics = metrics_options f metrics_watcher;
  webhook_tls_opts = with_watcher webhook_watcher (tls_opts f);
  health_probe_bind_address = f.probe_addr;
  leader_election = f.enable_leader_election;
  leader_election_id = "6f3099d8.checkpointing.k8s.io";
  default_namespaces = "" ∷ "default" ∷ "external-checkpointer-system" ∷ [];
}

module _ {S : Type 0} (H : Host S) (M : Launcher S) where
  -- A certificate's watcher, if the flag names a directory.
  unfoldable pub watcher_of : String → String → String → Flow ℕ S (Option ℕ)
  watcher_of path name key =
      if not (path == "")
      then (do
        made ← call (M.new_watcher (H.join path name) (H.join path key))
        watcher ← or_else made (λ _. exit 1)
        proceed (some watcher))
      else proceed none

  unfoldable pub add_watcher : Option ℕ → Flow ℕ S (Unit {0})
  add_watcher none = proceed tt
  add_watcher (some watcher) = do e ← call (M.add watcher); or_exit e

  -- `main`, after the flags are parsed: the exit status.
  unfoldable pub main : Flags → S → ℕ × S
  unfolding watcher_of add_watcher manager_options set_up_container_checkpoints
      set_up_pod_checkpoints set_up_pod_migrations
  main f s = answer (
      (do
        webhook ← watcher_of f.webhook_cert_path f.webhook_cert_name f.webhook_cert_key
        metrics ← watcher_of f.metrics_cert_path f.metrics_cert_name f.metrics_cert_key
        e ← call (M.new_manager (manager_options f metrics webhook))
        or_exit e
        containers ← call (set_up_container_checkpoints M)
        or_exit containers
        pods ← call (set_up_pod_checkpoints M)
        or_exit pods
        migrations ← call (set_up_pod_migrations M)
        or_exit migrations
        add_watcher metrics
        add_watcher webhook
        healthz ← call (M.add_healthz_check "healthz")
        or_exit healthz
        readyz ← call (M.add_readyz_check "readyz")
        or_exit readyz
        stopped ← call M.start
        or_exit stopped
        exit 0)
        s)
