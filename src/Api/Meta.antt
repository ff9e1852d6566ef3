-- ===== src/Api/Meta.antt =====
-- The Kubernetes types that the program's own types are built from: object metadata, object keys
-- and pods. Only the fields that the program reads or writes are kept apart; what it copies as a
-- whole is one field, `other`, that holds the rest in serialised form.
use pod_checkpoint_controlle.Prelude.{ℕ, String, ◌==◌, Bool, ◌&&◌, Option, List}
use pod_checkpoint_controlle.Prelude.Dict.{GoMap}

-- `types.NamespacedName`, also called `client.ObjectKey`. A cluster-scoped object has the
-- namespace "".
pub record ObjectKey : Type 0 where
  pub namespace : String
  pub name : String

abbrev pub same_key : ObjectKey → ObjectKey → Bool
same_key a b = a.namespace == b.namespace && a.name == b.name

-- The object that an entry of `metadata.ownerReferences` names; `controller` is its flag.
pub record OwnerReference : Type 0 where
  pub owner_name : String
  pub owner_uid : String
  pub controller : Bool

-- `metav1.ObjectMeta`. Times are nanoseconds on the writer's clock.
pub record ObjectMeta : Type 0 where
  pub name : String
  pub namespace : String
  pub uid : String
  pub resource_version : ℕ
  pub labels : GoMap
  pub annotations : GoMap
  pub finalizers : List String
  pub owner_references : List OwnerReference
  pub deletion_timestamp : Option ℕ

-- `client.ObjectKeyFromObject`.
abbrev pub key_of : ObjectMeta → ObjectKey
key_of m = record { namespace = m.namespace; name = m.name }

-- The metadata of a composite literal: a name and a namespace, all else at its zero value.
abbrev pub named : String → String → ObjectMeta
named namespace name = record {
  name = name;
  namespace = namespace;
  uid = "";
  resource_version = 0;
  labels = Option.none;
  annotations = Option.none;
  finalizers = List.[];
  owner_references = List.[];
  deletion_timestamp = Option.none;
}

-- `corev1.Container`.
pub record Container : Type 0 where
  pub name : String
  pub other : String

-- `corev1.PodSpec`.
pub record PodSpec : Type 0 where
  pub containers : List Container
  pub node_name : String
  pub node_selector : GoMap
  pub affinity : Option String
  pub other : String

-- `corev1.PodStatus`; the phase `Running` is the only one that is asked for.
pub data PodPhase : Type 0 where
  running : PodPhase
  not_running : String → PodPhase

pub record PodStatus : Type 0 where
  pub phase : PodPhase
  pub pod_ip : String

-- `corev1.Pod`.
pub record Pod : Type 0 where
  pub metadata : ObjectMeta
  pub spec : PodSpec
  pub status : PodStatus
