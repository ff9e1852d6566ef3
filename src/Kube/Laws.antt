-- ===== src/Kube/Laws.antt =====
-- The documented behaviour of an API server that serves the program's calls one after another,
-- with no other writer between them and no failure on the way. Failures and other writers are
-- inputs of the components' own theorems, which speak of any answer that a call may give.
use pod_checkpoint_controlle.Prelude.{
  ℕ, String, ◌≡◌, ◌≢◌, ◌⊎◌, true, false, Option, none, some, List, [],
}
use pod_checkpoint_controlle.Go.Errors.{
  GoError, not_found, already_exists, conflict, ok, err, is_not_found,
}
use pod_checkpoint_controlle.Api.Meta.{ObjectKey, ObjectMeta, OwnerReference, key_of}
use pod_checkpoint_controlle.Api.Objects.{
  Kind, Object, metadata, with_metadata, with_status_of, without_status,
}
use pod_checkpoint_controlle.Kube.Client.{Kube}
use pod_checkpoint_controlle.Kube.Retry.{Attempts}
use pod_checkpoint_controlle.Kube.Table.{Table, find, store, settle, stamped, found}

-- An object created anew: the server gives it a uid and drops a status that the caller wrote.
abbrev pub admitted : (k : Kind) → String → Object k → Object k
admitted k uid o = without_status k (with_metadata k (record (metadata k o) { uid = uid }) o)

-- An object on which a deletion is asked for: it goes at once unless a finalizer holds it.
abbrev pub doomed : (k : Kind) → ℕ → Object k → Object k
doomed k at o = with_metadata k (record (metadata k o) { deletion_timestamp = some at }) o

abbrev pub position : (k : Kind) → Object k → ObjectKey
position k o = key_of (metadata k o)

abbrev pub version : (k : Kind) → Object k → ℕ
version k o = (metadata k o).resource_version

-- A write may not add a finalizer to an object that is being deleted.
abbrev pub IsAllowed : Kube → (k : Kind) → Object k → Object k → Type 0
IsAllowed K k old o =
    ((metadata k old).deletion_timestamp ≡ none)
    ⊎ ((f : String)
        → K.contains_finalizer (metadata k o).finalizers f ≡ true
        → K.contains_finalizer (metadata k old).finalizers f ≡ true)

pub record Serves (K : Kube) : Type 0 where
  pub table : K.State → Table
  -- The resource version, the uid and the time that the next write is given.
  pub fresh : K.State → ℕ
  pub fresh_uid : K.State → String
  pub clock : K.State → ℕ
  pub missing : Kind → ObjectKey → GoError
  pub missing_reason : (k : Kind) (key : ObjectKey) → (missing k key).reason ≡ not_found
  pub get-result :
      (k : Kind) (key : ObjectKey) (s : K.State)
      → (K.get k key s).0 ≡ found k (missing k key) (find (table s) k key)
  pub get-table : (k : Kind) (key : ObjectKey) (s : K.State) → table (K.get k key s).1 ≡ table s
  -- A create fails if the key is taken.
  pub create-result :
      (k : Kind) (o : Object k) (s : K.State)
      → find (table s) k (position k o) ≡ none
      → (K.create k o s).0 ≡ ok (stamped k (fresh s) (admitted k (fresh_uid s) o))
  pub create-table :
      (k : Kind) (o : Object k) (s : K.State)
      → find (table s) k (position k o) ≡ none
      → table (K.create k o s).1
        ≡ store k (position k o) (some (stamped k (fresh s) (admitted k (fresh_uid s) o))) (table s)
  pub create_taken :
      (k : Kind) (o old : Object k) (s : K.State)
      → find (table s) k (position k o) ≡ some old
      → (e : GoError) × ((K.create k o s).0 ≡ err e)
        × (e.reason ≡ already_exists)
        × (table (K.create k o s).1 ≡ table s)
  -- A write needs the version that is stored. `Update` leaves the status as it is, and
  -- `Status().Update` leaves all else.
  pub update-result :
      (k : Kind) (o old : Object k) (s : K.State)
      → find (table s) k (position k o) ≡ some old
      → version k o ≡ version k old
      → IsAllowed K k old o
      → (K.update k o s).0 ≡ ok (stamped k (fresh s) (with_status_of k old o))
  pub update-table :
      (k : Kind) (o old : Object k) (s : K.State)
      → find (table s) k (position k o) ≡ some old
      → version k o ≡ version k old
      → IsAllowed K k old o
      → table (K.update k o s).1
        ≡ store k (position k o) (settle k (fresh s) (with_status_of k old o)) (table s)
  pub update_status-result :
      (k : Kind) (o old : Object k) (s : K.State)
      → find (table s) k (position k o) ≡ some old
      → version k o ≡ version k old
      → (K.update_status k o s).0 ≡ ok (stamped k (fresh s) (with_status_of k o old))
  pub update_status-table :
      (k : Kind) (o old : Object k) (s : K.State)
      → find (table s) k (position k o) ≡ some old
      → version k o ≡ version k old
      → table (K.update_status k o s).1
        ≡ store k (position k o) (some (stamped k (fresh s) (with_status_of k o old))) (table s)
  pub update_status-stale :
      (k : Kind) (o old : Object k) (s : K.State)
      → find (table s) k (position k o) ≡ some old
      → version k o ≢ version k old
      → (e : GoError) × ((K.update_status k o s).0 ≡ err e)
        × (e.reason ≡ conflict)
        × (table (K.update_status k o s).1 ≡ table s)
  -- A patch whose base is what is stored writes the object that it was computed for.
  pub patch-result :
      (k : Kind) (old o : Object k) (s : K.State)
      → find (table s) k (position k o) ≡ some old
      → IsAllowed K k old o
      → (K.patch k old o s).0 ≡ ok (stamped k (fresh s) (with_status_of k old o))
  pub patch-table :
      (k : Kind) (old o : Object k) (s : K.State)
      → find (table s) k (position k o) ≡ some old
      → IsAllowed K k old o
      → table (K.patch k old o s).1
        ≡ store k (position k o) (settle k (fresh s) (with_status_of k old o)) (table s)
  pub patch_status-result :
      (k : Kind) (old o : Object k) (s : K.State)
      → find (table s) k (position k o) ≡ some old
      → (K.patch_status k old o s).0 ≡ ok (stamped k (fresh s) (with_status_of k o old))
  pub patch_status-table :
      (k : Kind) (old o : Object k) (s : K.State)
      → find (table s) k (position k o) ≡ some old
      → table (K.patch_status k old o s).1
        ≡ store k (position k o) (some (stamped k (fresh s) (with_status_of k o old))) (table s)
  pub delete-result :
      (k : Kind) (key : ObjectKey) (old : Object k) (s : K.State)
      → find (table s) k key ≡ some old
      → (K.delete k key s).0 ≡ none
  pub delete-table :
      (k : Kind) (key : ObjectKey) (old : Object k) (s : K.State)
      → find (table s) k key ≡ some old
      → table (K.delete k key s).1
        ≡ store k key (settle k (fresh s) (doomed k (clock s) old)) (table s)
  pub delete_missing :
      (k : Kind) (key : ObjectKey) (s : K.State)
      → find (table s) k key ≡ none
      → ((K.delete k key s).0 ≡ some (missing k key)) × (table (K.delete k key s).1 ≡ table s)
  -- `CreateOrUpdate` creates the object as changed, or changes the one that is there.
  pub create_or_update_new :
      (k : Kind) (o : Object k) (f : Object k → Object k) (s : K.State)
      → find (table s) k (position k o) ≡ none
      → position k (f o) ≡ position k o
      → ((K.create_or_update k o f s).0 ≡ none)
        × (table (K.create_or_update k o f s).1
            ≡ store k
                (position k o)
                (some (stamped k (fresh s) (admitted k (fresh_uid s) (f o))))
                (table s))
  -- Without a change there is no write, and the version is the old one.
  pub create_or_update_old :
      (k : Kind) (o old : Object k) (f : Object k → Object k) (s : K.State)
      → find (table s) k (position k o) ≡ some old
      → ((K.create_or_update k o f s).0 ≡ none)
        × ((v : ℕ) × (table (K.create_or_update k o f s).1
              ≡ store k
                  (position k o)
                  (some (stamped k v (with_status_of k old (f old))))
                  (table s)))
  pub now-table : (s : K.State) → table (K.now s).1 ≡ table s
  -- With no other writer the wait between two attempts leaves the objects alone.
  pub wait : K.State → K.State
  pub wait-table : (s : K.State) → table (wait s) ≡ table s
  pub retries :
      (f : K.State → Option GoError × K.State) (s : K.State)
      → Attempts wait f 5 s (K.retry_on_conflict f s)
  pub ignore_not_found-eq : (e : GoError) → is_not_found e ≡ true → K.ignore_not_found e ≡ none
  pub ignore_not_found_other :
      (e : GoError) → is_not_found e ≡ false → K.ignore_not_found e ≡ some e
  pub contains_finalizer-nil : (f : String) → K.contains_finalizer [] f ≡ false
  pub contains_finalizer-add_finalizer :
      (l : List String) (f : String) → K.contains_finalizer (K.add_finalizer l f) f ≡ true
  pub contains_finalizer-remove_finalizer :
      (l : List String) (f : String) → K.contains_finalizer (K.remove_finalizer l f) f ≡ false
  pub contains_finalizer-of_remove_finalizer :
      (l : List String) (f g : String)
      → K.contains_finalizer (K.remove_finalizer l f) g ≡ true
      → K.contains_finalizer l g ≡ true
  -- The owner is entered among the owners; all else of the metadata stays.
  pub owners : ObjectMeta → ObjectMeta → List OwnerReference
  pub set_controller_reference-eq :
      (owner m : ObjectMeta)
      → m.owner_references ≡ []
      → K.set_controller_reference owner m ≡ ok (record m { owner_references = owners owner m })
