-- ===== src/Containers/Validated.antt =====
-- The way of `ContainerCheckpointReconciler.Reconcile` through its steps 1 to 6, for a checkpoint
-- that passes all of them.
use pod_checkpoint_controlle.Prelude.{String, ◌≡◌, refl, true, none, some, arith}
use pod_checkpoint_controlle.Go.Errors.{ok}
use pod_checkpoint_controlle.Go.Flow.{answer, ◌>>=◌}
use pod_checkpoint_controlle.Api.Meta.{key_of, Pod}
use pod_checkpoint_controlle.Api.Containers.{ContainerCheckpoint}
use pod_checkpoint_controlle.Api.Objects.{container_checkpoint, pod}
use pod_checkpoint_controlle.Kube.Client.{Kube}
use pod_checkpoint_controlle.Kube.Table.{Table, find}
use pod_checkpoint_controlle.Kube.Laws.{Serves}
use pod_checkpoint_controlle.Kube.Sequential.{get-found}
use pod_checkpoint_controlle.Containers.{
  cc_finalizer, non_empty, has_container, reconcile, get_or_create_content, mirror_status,
}

-- A checkpoint that is stored, not being deleted, guarded by its finalizer, and asks for a
-- container of a pod that is there.
pub record IsValidated (K : Kube) (t : Table) (cc : ContainerCheckpoint) (p : Pod) : Type 0 where
  pub stored : find t container_checkpoint (key_of cc.metadata) ≡ some cc
  pub live : cc.metadata.deletion_timestamp ≡ none
  pub guarded : K.contains_finalizer cc.metadata.finalizers cc_finalizer ≡ true
  pub dynamic : non_empty cc.spec.source.container_checkpoint_content_name ≡ none
  pub pod_name : String
  pub pod_named : cc.spec.source.pod_name ≡ some pod_name
  pub container_name : String
  pub container_named : cc.spec.source.container_name ≡ some container_name
  pub pod_stored :
      find t pod (record { namespace = cc.metadata.namespace; name = pod_name }) ≡ some p
  pub contained : has_container container_name p.spec.containers ≡ true

module _ (K : Kube) (L : Serves K) (cc : ContainerCheckpoint) (p : Pod) (s : K.State)
    (v : IsValidated K (L.table s) cc p) where
  abbrev pub after_cc : K.State
  after_cc = (K.get container_checkpoint (key_of cc.metadata) s).1

  abbrev pub after_pod : K.State
  after_pod =
      (K.get pod (record { namespace = cc.metadata.namespace; name = v.pod_name }) after_cc).1

  pub table-after_pod : L.table after_pod ≡ L.table s
  table-after_pod = rw (L.get-table, L.get-table) refl

  pod_result :
      (K.get pod (record { namespace = cc.metadata.namespace; name = v.pod_name }) after_cc).0
      ≡ ok p
  pod_result = get-found K L pod _ p after_cc (rw L.get-table v.pod_stored)

  pub reconcile-IsValidated :
      cc.status.bound_container_checkpoint_content_name ≡ none
      → reconcile K (key_of cc.metadata) s
        ≡ answer ((get_or_create_content K cc >>= mirror_status K cc) after_pod)
  unfolding reconcile
  reconcile-IsValidated unbound = ground (
    arith,
    get-found K L container_checkpoint _ cc s v.stored,
    pod_result,
    v.live,
    v.guarded,
    v.dynamic,
    v.pod_named,
    v.container_named,
    v.contained,
  )
