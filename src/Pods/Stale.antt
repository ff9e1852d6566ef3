-- ===== src/Pods/Stale.antt =====
-- Step 10 of `PodCheckpointReconciler.Reconcile` when the PodCheckpoint was written since step 1.
use pod_checkpoint_controlle.Prelude.{
  ℕ, String, ◌≡◌, ◌≢◌, refl, ◌∙◌, subst, Bool, true, false, Option, none, some, arith,
}
use pod_checkpoint_controlle.Go.Errors.{GoError, is_conflict}
use pod_checkpoint_controlle.Go.Flow.{reply_of, answer}
use pod_checkpoint_controlle.Api.Meta.{key_of}
use pod_checkpoint_controlle.Api.Pods.{PodCheckpoint, PodCheckpointContent}
use pod_checkpoint_controlle.Api.Objects.{pod_checkpoint}
use pod_checkpoint_controlle.Kube.Client.{Kube, written}
use pod_checkpoint_controlle.Kube.Retry.{Attempts, settled, again, exhausted, conflicted}
use pod_checkpoint_controlle.Kube.Table.{Table, find}
use pod_checkpoint_controlle.Kube.Laws.{Serves}
use pod_checkpoint_controlle.Pods.Status.{concluded, write_status, conclude}

module _ (K : Kube) (L : Serves K) where
  abbrev attempt : PodCheckpoint → K.State → Option GoError × K.State
  attempt pc t = written K (K.update_status pod_checkpoint pc t)

  -- A conflict that leaves the objects of a table as they are.
  abbrev Refused : Table → Option GoError × K.State → Type 0
  Refused T r = (conflicted r.0 ≡ true) × (L.table r.1 ≡ T)

  module _ (pc old : PodCheckpoint) (T : Table)
      (stored : find T pod_checkpoint (key_of pc.metadata) ≡ some old)
      (stale : pc.metadata.resource_version ≢ old.metadata.resource_version) where
    attempt-Refused : (t : K.State) → L.table t ≡ T → Refused T (attempt pc t)
    attempt-Refused t same =
        let (e, refused, reason, kept) =
          L.update_status-stale pod_checkpoint pc old t (rw same stored) stale in
        (ground (arith, refused, reason), ground (arith, refused, kept, same))

    Attempts-Refused :
        {n : ℕ} {t : K.State} {r : Option GoError × K.State}
        → L.table t ≡ T
        → Attempts L.wait (attempt pc) n t r
        → Refused T r
    Attempts-Refused {t = t} same (settled e c) = subst (Refused T) e (attempt-Refused t same)
    Attempts-Refused {t = t} same (again c a) =
        Attempts-Refused (L.wait-table (attempt pc t).1 ∙ (attempt-Refused t same).1) a
    Attempts-Refused {t = t} same (exhausted e c z) = subst (Refused T) e (attempt-Refused t same)

    write_status-Refused : (t : K.State) → L.table t ≡ T → Refused T (write_status K pc t)
    unfolding write_status
    write_status-Refused t same = Attempts-Refused same (L.retries (attempt pc) t)

  key_of-concluded :
      (b : Bool) (message : String) (now : ℕ) (pc : PodCheckpoint)
      → (concluded b message now pc).metadata ≡ pc.metadata
  unfolding concluded
  key_of-concluded true message now pc = refl
  key_of-concluded false message now pc = refl

  conflict_of :
      (r : Option GoError)
      → conflicted r ≡ true
      → (e : GoError) × (r ≡ some e) × (is_conflict e ≡ true)
  conflict_of none h = cc
  conflict_of (some e) h = (e, refl, h)

  -- With a server that serves the step alone: if the stored PodCheckpoint has another version than
  -- the one that step 1 read, every attempt to write its status meets a conflict: step 10 returns a
  -- conflict, and neither status is written.
  pub conclude-stale :
      (pc old : PodCheckpoint) (pcc : PodCheckpointContent) (all_ready : Bool) (agg_err : String)
      (s : K.State)
      → find (L.table s) pod_checkpoint (key_of pc.metadata) ≡ some old
      → pc.metadata.resource_version ≢ old.metadata.resource_version
      → (e : GoError) × (is_conflict e ≡ true)
        × ((answer (conclude K pc pcc all_ready agg_err s)).0 ≡ reply_of (some e))
        × (L.table (answer (conclude K pc pcc all_ready agg_err s)).1 ≡ L.table s)
  unfolding conclude
  conclude-stale pc old pcc all_ready agg_err s stored stale =
      let now = (K.now s).0 in
      let new = concluded all_ready agg_err now pc in
      let same = key_of-concluded all_ready agg_err now pc in
      let refused =
        write_status-Refused new old (L.table s) (rw same stored) (rw same stale) (K.now s).1
          (L.now-table s) in
      let (e, q, h) = conflict_of (write_status K new (K.now s).1).0 refused.0 in
      (e, h, ground (arith, q), ground (arith, q, refused.1))
