-- ===== src/Cmd/Node/Exits.antt =====
-- How the process of cmd/sidecar/main.go ends.
use pod_checkpoint_controlle.Prelude.{◌≡◌, refl, ◌⊎◌, inl, inr, some, none, Option-cases}
use pod_checkpoint_controlle.Go.Errors.{GoError, err}
use pod_checkpoint_controlle.Sidecar.Host.{Host}
use pod_checkpoint_controlle.Sidecar.Manager.{node_name_required, create_checkpoint_reconciler}
use pod_checkpoint_controlle.Cmd.{Launcher}
use pod_checkpoint_controlle.Cmd.Node.{Flags, manager_options, main}

module _ {S : Type 0} (H : Host S) (M : Launcher S)
    (nameless : (s : S) → (H.getenv "NODE_NAME" s).0 ≡ "") where
  -- The states after the name of the node is read, and after the manager is made.
  abbrev named : S → S
  named s = (H.getenv "NODE_NAME" s).1

  abbrev made : Flags → S → S
  made f s = (M.new_manager (manager_options f) (named s)).1

  refused : (s : S) → create_checkpoint_reconciler H s ≡ (err node_name_required, named s)
  unfolding create_checkpoint_reconciler
  refused s = rw (nameless, create_checkpoint_reconciler) refl

  -- While the environment has no name of the node, the process exits with the status 1, whatever the
  -- manager answers, and sets up no controller and starts no manager: its last call is that of
  -- `NewManager` if this fails, and the next search for the name of the node if not.
  pub main-nameless :
      (f : Flags) (s : S)
      → ((e : GoError) × ((M.new_manager (manager_options f) (named s)).0 ≡ some e)
          × (main H M f s ≡ (1, made f s)))
        ⊎ (((M.new_manager (manager_options f) (named s)).0 ≡ none)
            × (main H M f s ≡ (1, named (made f s))))
  unfolding main
  main-nameless f s = elim (Option-cases (M.new_manager (manager_options f) (named s)).0) [
    | inr (e, failed) ↦ inl (e, failed, rw (failed, main) refl)
    | inl fine ↦ inr (fine, rw (fine, refused, main) refl)
  ]
