-- ===== src/Lib.antt =====
-- A model of pod-checkpoint-controller, and theorems about it. The program moves a running pod to
-- another node: a PodMigration asks for a PodCheckpoint of its source pod, the PodCheckpoint for a
-- ContainerCheckpoint of each container, and each of these for a cluster-scoped
-- ContainerCheckpointContent. A sidecar on the pod's node has the kubelet write the checkpoint and
-- sends the files to the sidecar of the target node. The parts meet only in the objects that the
-- API server holds: each reconciler reads them, writes some, and asks to be run again.
--
-- The files, and the code that they model:
--   Api                  api/v1: the specs and statuses of the five kinds. `Api.Meta` has the parts
--                        of Kubernetes' own types that the program reads or writes, and
--                        `Api.Objects` gathers the kinds. `Api.Copies` has the deep copies of
--                        api/v1/zz_generated.deepcopy.go: the structs with their pointers, a memory
--                        of cells, `DeepCopyInto` and `DeepCopy` of each type, and what a struct
--                        denotes in a memory.
--   Go                   errors as a class and a text, and functions with early returns: a step of
--                        a `Flow` goes on with a value or returns from the whole function.
--                        `Go.Costs` bounds what a function costs by what its calls cost.
--   Kube                 controller-runtime's client, client-go's retry and controllerutil, as the
--                        record `Kube` of operations on the state of the outside world. They are
--                        parameters: `Kube.Laws` states what a server is documented to do when it
--                        serves the calls one after another, and `Kube.Memory` is a server that
--                        does it.
--   Containers           internal/controller/containercheckpoint_controller.go. A function for each
--                        numbered step of `Reconcile`; `reconcile` composes them.
--   Pods                 internal/controller/podcheckpoint_controller.go, likewise: the steps 1 to 7
--                        in Pods, 8 and 9 in `Pods.Members`, 10 in `Pods.Status`, the whole in
--                        `Pods.Reconcile`; the other files below Pods hold the theorems:
--                        `Pods.Frame` says which objects a run spares, and `Pods.Passage` how a run
--                        reaches its last steps.
--   Migrations           internal/controller/podmigration_controller.go: a function for each handler
--                        and `dispatch` for the switch on the phase. `Migrations.Refinement` has the
--                        machine that a run refines.
--   Sidecar.Reconciler   internal/sidecar/sidecar_checkpoint.go.
--   Sidecar.Manager, Sidecar.Kubelet, Sidecar.Transfer
--                        internal/sidecar/checkpoint_manager.go: the constructor and the cleanup,
--                        the call of the kubelet, and the transfer of a file.
--   Sidecar.Costs, Sidecar.Bounds, Sidecar.Delivery, Sidecar.Steps, Sidecar.Run, Sidecar.Unsent,
--   Sidecar.Attempts, Sidecar.Deletion
--                        how often the sidecar asks and how long it waits, the run that makes and
--                        sends a checkpoint, the run that cannot send it, the next run, and that of a
--                        deleted content.
--   Sidecar.Server       internal/sidecar/http_server.go.
--   Sidecar.Host         Go's standard library and apimachinery's backoff, as the record `Host` of
--                        operations; `Sidecar.Offline` is a node without a network, and
--                        `Sidecar.Online` one in a cluster.
--   Cmd                  cmd/main.go is `Cmd.Controller`, and cmd/sidecar/main.go is `Cmd.Node`: the
--                        parsed flags, the options made of them, and the start; Cmd has the
--                        `SetupWithManager` functions, and controller-runtime's manager as the
--                        record `Launcher` of operations.
--   System               the reconcilers in turn: a container checkpoint (`System.Checkpoints`), the
--                        members of a pod checkpoint (`System.Members`), the pod checkpoint
--                        (`System.PodCheckpoints`) and the migration (`System.Whole`), each from its
--                        request to its end; a file from one sidecar to another
--                        (`System.Deliveries`); and the runs after the end (`System.Rest`).
--   Examples             the theorems at concrete inputs.
--
-- Choices. The state of the world is opaque: a call takes it and gives an answer and a new state, so
-- a theorem without laws holds for any answers, errors included. Times are whole nanoseconds;
-- `5*time.Minute - time.Since(t)` is written t + 5 min - now, and is used only where it is positive.
-- A Go slice is a list, a pointer is an option, a map is an association list that may be nil.
-- `RetryOnConflict` makes five attempts, the steps of client-go's `DefaultRetry`; the upload loop
-- is a recursion on the rounds left, from the three of the source, and `%d` of a number is printed
-- with one digit more of fuel than its value, which exceeds its number of digits. A request that
-- `http.NewRequest` could not build is the nil pointer that the code passes on. Outside `Api.Copies`
-- an object is a value, without the addresses of its parts.
--
-- Not modelled: logging and its flags; the parsing of the command line; the registration of types in
-- the scheme (api/v1/groupversion_info.go); the manifests under config; the tests; and the
-- vendored libraries. The timeouts of the upload server are left out, and the goroutine that
-- starts it is `Sidecar.Server.start`.
pub mod Prelude
pub mod Api
pub mod Go
pub mod Kube
pub mod Containers
pub mod Pods
pub mod Migrations
pub mod Sidecar
pub mod System
pub mod Cmd
pub mod Examples
