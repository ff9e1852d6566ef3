-- ===== src/Cmd.antt =====
-- What cmd/main.go and cmd/sidecar/main.go ask of controller-runtime's manager, a parameter over the
-- state of the outside world, and the `SetupWithManager` functions that they call.
pub mod Controller
pub mod Node
pub mod Http
use pod_checkpoint_controlle.Prelude.{ℕ, String, Bool, Option, some, List, [], ◌∷◌}
use pod_checkpoint_controlle.Go.Errors.{GoError, Result}
use pod_checkpoint_controlle.Go.Flow.{Flow, exit, ◌>>=◌, ◌>>◌, call, unless_nil, answer}
use pod_checkpoint_controlle.Api.Meta.{Pod}
use pod_checkpoint_controlle.Api.Objects.{
  Kind, container_checkpoint, container_checkpoint_content, pod_checkpoint, pod_migration, pod,
}

-- The part of `tls.Config` that the program sets; a watcher is a number.
pub record TlsConfig : Type 0 where
  pub next_protos : List String
  pub get_certificate : Option ℕ

-- The functions on a `tls.Config` that the program makes.
pub data TlsOption : Type 0 where
  disable_http2 : TlsOption
  certificate_of : ℕ → TlsOption

-- `metricsserver.Options`; `filtered` says that the filter for authentication is set.
pub record MetricsOptions : Type 0 where
  pub bind_address : String
  pub secure_serving : Bool
  pub filtered : Bool
  pub tls_opts : List TlsOption

-- `ctrl.Options`, with the options of the webhook server.
pub record ManagerOptions : Type 0 where
  pub metrics : MetricsOptions
  pub webhook_tls_opts : List TlsOption
  pub health_probe_bind_address : String
  pub leader_election : Bool
  pub leader_election_id : String
  pub default_namespaces : List String

-- What a controller is run for: its own kind, and the kinds of the objects that it owns.
pub record Watches : Type 0 where
  pub for_kind : Kind
  pub owns : List Kind

pub record Launcher (S : Type 0) : Type 0 where
  -- `ctrl.NewManager`, with the configuration that `GetConfigOrDie` finds.
  pub new_manager : ManagerOptions → S → Option GoError × S
  -- `certwatcher.New`
  pub new_watcher : String → String → S → Result ℕ × S
  -- `IndexField`
  pub index_field : Kind → String → (Pod → List String) → S → Option GoError × S
  -- `Complete`, on the builder of `NewControllerManagedBy`.
  pub complete : Watches → S → Option GoError × S
  pub add : ℕ → S → Option GoError × S
  pub add_healthz_check : String → S → Option GoError × S
  pub add_readyz_check : String → S → Option GoError × S
  -- `Start`, with the handler of signals: it returns when the manager has stopped.
  pub start : S → Option GoError × S

module _ {S : Type 0} (M : Launcher S) where
  -- `ContainerCheckpointReconciler.SetupWithManager`
  unfoldable pub set_up_container_checkpoints : S → Option GoError × S
  set_up_container_checkpoints = M.complete (record { for_kind = container_checkpoint; owns = [] })

  -- `PodCheckpointReconciler.SetupWithManager`
  unfoldable pub set_up_pod_checkpoints : S → Option GoError × S
  set_up_pod_checkpoints =
      M.complete (record { for_kind = pod_checkpoint; owns = container_checkpoint ∷ [] })

  -- `PodMigrationReconciler.SetupWithManager`
  unfoldable pub set_up_pod_migrations : S → Option GoError × S
  set_up_pod_migrations =
      M.complete (record { for_kind = pod_migration; owns = pod_checkpoint ∷ [] })

  -- `CheckpointReconciler.SetupWithManager`
  unfoldable pub set_up_contents : S → Option GoError × S
  set_up_contents s = answer (
      (do
        e ← call (M.index_field pod "spec.nodeName" (λ p. p.spec.node_name ∷ []))
        unless_nil e (λ x. exit (some x))
        e' ← call (M.complete (record { for_kind = container_checkpoint_content; owns = [] }))
        exit e')
        s)

-- `if err != nil { os.Exit(1) }`
abbrev pub or_exit : {S : Type 0} → Option GoError → Flow ℕ S (Unit {0})
or_exit e = unless_nil e (λ _. exit 1)
