-- ===== src/Kube/Sequential.antt =====
-- What the program's read, change and write loops do against a server that serves them alone.
use pod_checkpoint_controlle.Prelude.{ℕ, ◌≡◌, ◌∙◌, false, Option, none, some}
use pod_checkpoint_controlle.Go.Errors.{GoError, ok, err}
use pod_checkpoint_controlle.Api.Meta.{ObjectKey}
use pod_checkpoint_controlle.Api.Objects.{Kind, Object, with_status_of}
use pod_checkpoint_controlle.Kube.Client.{Kube, get_modify_write}
use pod_checkpoint_controlle.Kube.Retry.{Attempts-settles, conflicted}
use pod_checkpoint_controlle.Kube.Table.{find, store, settle, stamped}
use pod_checkpoint_controlle.Kube.Laws.{Serves, IsAllowed, position, version}

module _ (K : Kube) (L : Serves K) where
  -- A loop whose first attempt meets no conflict makes that attempt and no other.
  pub retry-settles :
      (f : K.State → Option GoError × K.State) (s : K.State)
      → conflicted (f s).0 ≡ false
      → K.retry_on_conflict f s ≡ f s
  retry-settles f s h = Attempts-settles L.wait f h (L.retries f s)

  pub get-found :
      (k : Kind) (key : ObjectKey) (o : Object k) (s : K.State)
      → find (L.table s) k key ≡ some o
      → (K.get k key s).0 ≡ ok o
  get-found k key o s h = rw (L.get-result k key s, h)

  pub get-missing :
      (k : Kind) (key : ObjectKey) (s : K.State)
      → find (L.table s) k key ≡ none
      → (K.get k key s).0 ≡ err (L.missing k key)
  get-missing k key s h = rw (L.get-result k key s, h)

  module _ (k : Kind) (old : Object k) (f : Object k → Object k) (s : K.State)
      (stored : find (L.table s) k (position k old) ≡ some old)
      (same_position : position k (f old) ≡ position k old)
      (same_version : version k (f old) ≡ version k old) where
    abbrev read : K.State
    read = (K.get k (position k old) s).1

    stored_after_read : find (L.table read) k (position k (f old)) ≡ some old
    stored_after_read = rw (same_position, L.get-table k (position k old) s) stored

    status_attempt :
        get_modify_write K k (position k old) f (K.update_status k) s
        ≡ (none, (K.update_status k (f old) read).1)
    status_attempt = rw (
      get-found k (position k old) old s stored,
      L.update_status-result k (f old) old read stored_after_read same_version,
    )

    status_retry :
        K.retry_on_conflict (get_modify_write K k (position k old) f (K.update_status k)) s
        ≡ (none, (K.update_status k (f old) read).1)
    status_retry = retry-settles _ s (rw status_attempt) ∙ status_attempt

    status_table :
        L.table (K.update_status k (f old) read).1
        ≡ store k
            (position k old)
            (some (stamped k (L.fresh read) (with_status_of k (f old) old)))
            (L.table s)
    status_table =
        L.update_status-table k (f old) old read stored_after_read same_version
        ∙ rw (same_position, L.get-table k (position k old) s)

    -- The loop of every `updateStatus`: the status that `f` computes is stored, at a new version.
    pub status_loop :
        (v : ℕ) × ((K.retry_on_conflict
            (get_modify_write K k (position k old) f (K.update_status k))
            s).0
          ≡ none)
        × (L.table
              (K.retry_on_conflict
                (get_modify_write K k (position k old) f (K.update_status k))
                s).1
            ≡ store k
                (position k old)
                (some (stamped k v (with_status_of k (f old) old)))
                (L.table s))
    status_loop = (L.fresh read, rw status_retry, rw status_retry status_table)

  module _ (k : Kind) (old : Object k) (f : Object k → Object k) (s : K.State)
      (stored : find (L.table s) k (position k old) ≡ some old)
      (same_position : position k (f old) ≡ position k old) where
    abbrev at_write : K.State
    at_write = (K.get k (position k old) s).1

    stored_at_write : find (L.table at_write) k (position k (f old)) ≡ some old
    stored_at_write = rw (same_position, L.get-table k (position k old) s) stored

    module _ (same_version : version k (f old) ≡ version k old)
        (allowed : IsAllowed K k old (f old)) where
      update_attempt :
          get_modify_write K k (position k old) f (K.update k) s
          ≡ (none, (K.update k (f old) at_write).1)
      update_attempt = rw (
        get-found k (position k old) old s stored,
        L.update-result k (f old) old at_write stored_at_write same_version allowed,
      )

      update_retry :
          K.retry_on_conflict (get_modify_write K k (position k old) f (K.update k)) s
          ≡ (none, (K.update k (f old) at_write).1)
      update_retry = retry-settles _ s (rw update_attempt) ∙ update_attempt

      update_table :
          L.table (K.update k (f old) at_write).1
          ≡ store k
              (position k old)
              (settle k (L.fresh at_write) (with_status_of k old (f old)))
              (L.table s)
      update_table =
          L.update-table k (f old) old at_write stored_at_write same_version allowed
          ∙ rw (same_position, L.get-table k (position k old) s)

      -- The loops that write the whole object: what `f` makes of it is stored, with the old status.
      pub update_loop :
          (v : ℕ) × ((K.retry_on_conflict
              (get_modify_write K k (position k old) f (K.update k))
              s).0
            ≡ none)
          × (L.table
                (K.retry_on_conflict (get_modify_write K k (position k old) f (K.update k)) s).1
              ≡ store k (position k old) (settle k v (with_status_of k old (f old))) (L.table s))
      update_loop = (L.fresh at_write, rw update_retry, rw update_retry update_table)

    module _ (allowed : IsAllowed K k old (f old)) where
      patch_attempt :
          get_modify_write K k (position k old) f (K.patch k old) s
          ≡ (none, (K.patch k old (f old) at_write).1)
      patch_attempt = rw (
        get-found k (position k old) old s stored,
        L.patch-result k old (f old) at_write stored_at_write allowed,
      )

      patch_retry :
          K.retry_on_conflict (get_modify_write K k (position k old) f (K.patch k old)) s
          ≡ (none, (K.patch k old (f old) at_write).1)
      patch_retry = retry-settles _ s (rw patch_attempt) ∙ patch_attempt

      patch_table :
          L.table (K.patch k old (f old) at_write).1
          ≡ store k
              (position k old)
              (settle k (L.fresh at_write) (with_status_of k old (f old)))
              (L.table s)
      patch_table =
          L.patch-table k old (f old) at_write stored_at_write allowed
          ∙ rw (same_position, L.get-table k (position k old) s)

      -- The same for a patch against the object that was at_write before.
      pub patch_loop :
          (v : ℕ) × ((K.retry_on_conflict
              (get_modify_write K k (position k old) f (K.patch k old))
              s).0
            ≡ none)
          × (L.table
                (K.retry_on_conflict (get_modify_write K k (position k old) f (K.patch k old)) s).1
              ≡ store k (position k old) (settle k v (with_status_of k old (f old))) (L.table s))
      patch_loop = (L.fresh at_write, rw patch_retry, rw patch_retry patch_table)
