-- ===== src/Kube/Client.antt =====
-- The calls that the program makes of controller-runtime, apimachinery and client-go.
use pod_checkpoint_controlle.Prelude.{ℕ, String, Bool, Option, some, List}
use pod_checkpoint_controlle.Go.Errors.{GoError, Result, ok, err, error_of}
use pod_checkpoint_controlle.Api.Meta.{ObjectKey, ObjectMeta, Pod}
use pod_checkpoint_controlle.Api.Objects.{Kind, Object}

-- `State` is everything outside the program: the API server, other clients, the clock.
pub record Kube : Type 1 where
  pub State : Type 0
  -- `client.Client`. A write answers with the object as the server stored it.
  pub get : (k : Kind) → ObjectKey → State → Result (Object k) × State
  pub create : (k : Kind) → Object k → State → Result (Object k) × State
  pub update : (k : Kind) → Object k → State → Result (Object k) × State
  pub delete : (k : Kind) → ObjectKey → State → Option GoError × State
  -- `Patch(ctx, obj, client.MergeFrom(base))`: first the base, then the object.
  pub patch : (k : Kind) → Object k → Object k → State → Result (Object k) × State
  -- `Status().Update` and `Status().Patch`.
  pub update_status : (k : Kind) → Object k → State → Result (Object k) × State
  pub patch_status : (k : Kind) → Object k → Object k → State → Result (Object k) × State
  -- `List` of the pods that carry a label with a value.
  pub list_pods : String → String → State → Result (List Pod) × State
  -- `controllerutil.CreateOrUpdate`, with the object as it is before the call.
  pub create_or_update :
      (k : Kind) → Object k → (Object k → Object k) → State → Option GoError × State
  -- `retry.RetryOnConflict(retry.DefaultRetry, f)`.
  pub retry_on_conflict : (State → Option GoError × State) → State → Option GoError × State
  -- `time.Now()`, in nanoseconds.
  pub now : State → ℕ × State
  -- `client.IgnoreNotFound`.
  pub ignore_not_found : GoError → Option GoError
  -- `controllerutil`'s functions on the finalizers of an object.
  pub contains_finalizer : List String → String → Bool
  pub add_finalizer : List String → String → List String
  pub remove_finalizer : List String → String → List String
  -- `controllerutil.SetControllerReference(owner, controlled, scheme)`.
  pub set_controller_reference : ObjectMeta → ObjectMeta → Result ObjectMeta
  -- The text that `%q` prints.
  pub quote : String → String

module _ (K : Kube) where
  abbrev pub written : {A : Type 0} → Result A × K.State → Option GoError × K.State
  written (r, s) = (error_of r, s)

  abbrev modify :
      (k : Kind)
      → (Object k → Object k)
      → (Object k → K.State → Result (Object k) × K.State)
      → Result (Object k) × K.State
      → Option GoError × K.State
  modify k f write (ok latest, s) = written (write (f latest) s)
  modify k f write (err e, s) = (some e, s)

  -- The function that the program hands to `RetryOnConflict`: it reads the object anew, changes
  -- it and writes it.
  abbrev pub get_modify_write :
      (k : Kind)
      → ObjectKey
      → (Object k → Object k)
      → (Object k → K.State → Result (Object k) × K.State)
      → K.State
      → Option GoError × K.State
  get_modify_write k key f write s = modify k f write (K.get k key s)
