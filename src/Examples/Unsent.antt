-- ===== src/Examples/Unsent.antt =====
-- The theorem on a run whose files cannot be sent at a concrete input: the sidecar that runs on the target
-- node has no address yet.
use pod_checkpoint_controlle.Prelude.{String, [], ◌∷◌}
use pod_checkpoint_controlle.Api.Meta.{Pod}
use pod_checkpoint_controlle.Kube.Client.{Kube}
use pod_checkpoint_controlle.Kube.Memory.{cluster}
use pod_checkpoint_controlle.Sidecar.Reconciler.{target_of_location}
use pod_checkpoint_controlle.Examples.System.{running_on}

abbrev nameless : Pod
nameless = running_on "system" "sidecar-n2" "n2" ""

abbrev early : Kube
early = cluster (nameless ∷ [])

abbrev target : String
target = target_of_location "node://n2"
