-- ===== src/Examples/Cmd.antt =====
-- The theorems on cmd at concrete inputs.
use pod_checkpoint_controlle.Prelude.{◌≡◌, ◌⊎◌, refl, none, some, [], ◌∷◌}
use pod_checkpoint_controlle.Go.Errors.{GoError, ok}
use pod_checkpoint_controlle.Kube.Memory.{Memory, empty}
use pod_checkpoint_controlle.Sidecar.Offline.{offline_host}
use pod_checkpoint_controlle.Cmd.{TlsConfig, Launcher}
use pod_checkpoint_controlle.Cmd.Controller.{default_flags, manager_options}
use pod_checkpoint_controlle.Cmd.Http.{configure, manager_options-offered}
use pod_checkpoint_controlle.Cmd.Node.{
  default_flags as node_flags, manager_options as node_options, main,
}
use pod_checkpoint_controlle.Cmd.Node.Exits.{main-nameless}

-- A configuration that would offer HTTP/2.
abbrev modern : TlsConfig
modern = record { next_protos = "h2" ∷ "http/1.1" ∷ []; get_certificate = none }

manager_options-offered_example :
    ((configure (manager_options default_flags (some 1) none).metrics.tls_opts modern).next_protos
      ≡ "http/1.1" ∷ [])
    × ((configure (manager_options default_flags (some 1) none).webhook_tls_opts modern).next_protos
        ≡ "http/1.1" ∷ [])
unfolding default_flags
manager_options-offered_example = manager_options-offered default_flags (some 1) none modern

-- A manager that takes all it is asked.
abbrev willing : Launcher Memory
willing = record {
  new_manager = λ o s. (none, s);
  new_watcher = λ cert key s. (ok 1, s);
  index_field = λ k field f s. (none, s);
  complete = λ w s. (none, s);
  add = λ watcher s. (none, s);
  add_healthz_check = λ name s. (none, s);
  add_readyz_check = λ name s. (none, s);
  start = λ s. (none, s);
}

main-nameless_example :
    ((e : GoError) × ((willing.new_manager (node_options node_flags) empty).0 ≡ some e)
      × (main (offline_host Memory) willing node_flags empty ≡ (1, empty)))
    ⊎ (((willing.new_manager (node_options node_flags) empty).0 ≡ none)
        × (main (offline_host Memory) willing node_flags empty ≡ (1, empty)))
main-nameless_example = main-nameless (offline_host Memory) willing (λ s. refl) node_flags empty
