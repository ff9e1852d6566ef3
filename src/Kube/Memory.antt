-- ===== src/Kube/Memory.antt =====
-- An API server in memory, which shows that the laws can be met and runs the examples.
use pod_checkpoint_controlle.Prelude.{
  ℕ, zero, suc, ◌+◌, String, ◌<>◌, ◌==◌, ◌≡◌, refl, Bool, true, false, Option, none, some, List, [],
  ◌∷◌, ◌++◌, eqb, if◌then◌else◌, arith, eq_iff, Bool-cases, inl, inr,
}
use pod_checkpoint_controlle.Go.Errors.{
  GoError, Reason, not_found, already_exists, conflict, Result, ok, err, is_not_found,
}
use pod_checkpoint_controlle.Api.Meta.{ObjectKey, ObjectMeta, OwnerReference, Pod}
use pod_checkpoint_controlle.Api.Objects.{Kind, Object, with_status_of}
use pod_checkpoint_controlle.Kube.Client.{Kube}
use pod_checkpoint_controlle.Kube.Retry.{Attempts, settled, again, exhausted, conflicted}
use pod_checkpoint_controlle.Kube.Table.{Table, find, store, settle, stamped, found}
use pod_checkpoint_controlle.Kube.Laws.{Serves, admitted, doomed, position, version}

pub record Memory : Type 0 where
  pub table : Table
  pub writes : ℕ
  -- What the node that uses it has sent, and how long it has slept.
  pub sent : ℕ
  pub slept : ℕ

abbrev pub empty_table : Table
empty_table = record {
  container_checkpoints = λ _. none;
  container_checkpoint_contents = λ _. none;
  pod_checkpoints = λ _. none;
  pod_checkpoint_contents = λ _. none;
  pod_migrations = λ _. none;
  pods = λ _. none;
}

abbrev pub empty : Memory
empty = record { table = empty_table; writes = 1; sent = 0; slept = 0 }

abbrev failure : Reason → GoError
failure r = record { reason = r; text = "refused" }

abbrev put : (k : Kind) → ObjectKey → Option (Object k) → Memory → Memory
put k key v s = record s { table = store k key v s.table; writes = s.writes + 1 }

abbrev create_at : (k : Kind) → Object k → Option (Object k) → Memory → Result (Object k) × Memory
create_at k o none s =
    let new = stamped k s.writes (admitted k "uid" o) in (ok new, put k (position k o) (some new) s)
create_at k o (some old) s = (err (failure already_exists), s)

-- A write of `merge old`, if `o` has the version that is stored.
abbrev write_at :
    (k : Kind)
    → Object k
    → (Object k → Object k)
    → (Object k → Option (Object k))
    → Option (Object k)
    → Memory
    → Result (Object k) × Memory
write_at k o merge keep none s = (err (failure not_found), s)
write_at k o merge keep (some old) s =
    if eqb (version k o) (version k old)
    then (ok (stamped k s.writes (merge old)), put k (position k o) (keep (merge old)) s)
    else (err (failure conflict), s)

abbrev patch_at :
    (k : Kind)
    → Object k
    → (Object k → Object k)
    → (Object k → Option (Object k))
    → Option (Object k)
    → Memory
    → Result (Object k) × Memory
patch_at k o merge keep none s = (err (failure not_found), s)
patch_at k o merge keep (some old) s =
    (ok (stamped k s.writes (merge old)), put k (position k o) (keep (merge old)) s)

abbrev delete_at : (k : Kind) → ObjectKey → Option (Object k) → Memory → Option GoError × Memory
delete_at k key none s = (some (failure not_found), s)
delete_at k key (some old) s = (none, put k key (settle k s.writes (doomed k s.writes old)) s)

abbrev create_or_update_at :
    (k : Kind)
    → Object k
    → (Object k → Object k)
    → Option (Object k)
    → Memory
    → Option GoError × Memory
create_or_update_at k o f none s =
    (none, put k (position k o) (some (stamped k s.writes (admitted k "uid" (f o)))) s)
create_or_update_at k o f (some old) s =
    (none, put k (position k o) (some (stamped k s.writes (with_status_of k old (f old)))) s)

module _ {S : Type 0} (f : S → Option GoError × S) where
  unfoldable pub attempts : ℕ → S → Option GoError × S
  attempts zero s = f s
  attempts (suc n) s = let rest = attempts n (f s).1 in if conflicted (f s).0 then rest else f s

  pub attempts-Attempts : (n : ℕ) (s : S) → Attempts (λ t. t) f (suc n) s (attempts n s)
  unfolding attempts
  attempts-Attempts zero s = elim (Bool-cases (conflicted (f s).0)) [
    | inl c ↦ exhausted refl c refl
    | inr c ↦ settled refl c
  ]
  attempts-Attempts (suc n) s = elim (Bool-cases (conflicted (f s).0)) [
    | inl c ↦ rw c (again c (attempts-Attempts n (f s).1))
    | inr c ↦ rw c (settled refl c)
  ]

unfoldable pub contains : List String → String → Bool
contains [] f = false
contains (g ∷ l) f = if g == f then true else contains l f

unfoldable pub without : List String → String → List String
without [] f = []
without (g ∷ l) f = let rest = without l f in if g == f then rest else g ∷ rest

pub contains-nil : (f : String) → contains [] f ≡ false
unfolding contains
contains-nil f = refl

pub contains-without : (l : List String) (f : String) → contains (without l f) f ≡ false
unfolding contains without
contains-without [] f = refl
contains-without (g ∷ l) f = ground (arith, contains-without l f)

pub contains-of_without :
    (l : List String) (f g : String) → contains (without l f) g ≡ true → contains l g ≡ true
unfolding contains without
contains-of_without [] f g h = h
contains-of_without (i ∷ l) f g h = ground (arith, contains-of_without l f g)

contains-append : (l : List String) (f : String) → contains (l ++ (f ∷ [])) f ≡ true
unfolding contains
contains-append [] f = ground (arith, eq_iff f f)
contains-append (g ∷ l) f = ground (arith, contains-append l f)

unfoldable pub add : List String → String → List String
unfolding contains
add l f = if contains l f then l else l ++ (f ∷ [])

pub contains-add : (l : List String) (f : String) → contains (add l f) f ≡ true
unfolding add
contains-add l f = elim (Bool-cases (contains l f)) [
  | inl c ↦ rw c c
  | inr c ↦ rw c (contains-append l f)
]

abbrev owned : ObjectMeta → ObjectMeta → List OwnerReference
owned owner m =
    record { owner_name = owner.name; owner_uid = owner.uid; controller = true }
    ∷ m.owner_references

-- With the sidecar pods that are listed.
abbrev pub cluster : List Pod → Kube
cluster sidecars = record {
  State = Memory;
  get = λ k key s. (found k (failure not_found) (find s.table k key), s);
  create = λ k o s. create_at k o (find s.table k (position k o)) s;
  update = λ k o s.
      write_at k o (λ old. with_status_of k old o) (settle k s.writes)
        (find s.table k (position k o)) s;
  delete = λ k key s. delete_at k key (find s.table k key) s;
  patch = λ k base o s.
      patch_at k o (λ old. with_status_of k old o) (settle k s.writes)
        (find s.table k (position k o)) s;
  update_status = λ k o s.
      write_at k o (λ old. with_status_of k o old) (λ new. some (stamped k s.writes new))
        (find s.table k (position k o)) s;
  patch_status = λ k base o s.
      patch_at k o (λ old. with_status_of k o old) (λ new. some (stamped k s.writes new))
        (find s.table k (position k o)) s;
  list_pods = λ label value s. (ok sidecars, s);
  create_or_update = λ k o f s. create_or_update_at k o f (find s.table k (position k o)) s;
  retry_on_conflict = λ f s. attempts f 4 s;
  now = λ s. (s.writes, s);
  ignore_not_found = λ e. if is_not_found e then none else some e;
  contains_finalizer = contains;
  add_finalizer = add;
  remove_finalizer = without;
  set_controller_reference = λ owner m. ok (record m { owner_references = owned owner m });
  quote = λ text. "\"" <> text <> "\"";
}

-- The server in memory meets every law.
unfoldable pub cluster-Serves : (sidecars : List Pod) → Serves (cluster sidecars)
cluster-Serves sidecars = record {
  table = λ s. s.table;
  fresh = λ s. s.writes;
  fresh_uid = λ s. "uid";
  clock = λ s. s.writes;
  missing = λ k key. failure not_found;
  missing_reason = λ k key. refl;
  get-result = λ k key s. refl;
  get-table = λ k key s. refl;
  create-result = λ k o s h. ground arith;
  create-table = λ k o s h. ground arith;
  create_taken = λ k o old s h. (failure already_exists, ground arith, refl, ground arith);
  update-result = λ k o old s h v a. ground arith;
  update-table = λ k o old s h v a. ground arith;
  update_status-result = λ k o old s h v. ground arith;
  update_status-table = λ k o old s h v. ground arith;
  update_status-stale = λ k o old s h v. (failure conflict, ground arith, refl, ground arith);
  patch-result = λ k old o s h a. ground arith;
  patch-table = λ k old o s h a. ground arith;
  patch_status-result = λ k old o s h. ground arith;
  patch_status-table = λ k old o s h. ground arith;
  delete-result = λ k key old s h. ground arith;
  delete-table = λ k key old s h. ground arith;
  delete_missing = λ k key s h. (ground arith, ground arith);
  create_or_update_new = λ k o f s h p. (ground arith, ground arith);
  create_or_update_old = λ k o old f s h. (ground arith, (s.writes, ground arith));
  now-table = λ s. refl;
  wait = λ s. s;
  wait-table = λ s. refl;
  retries = λ f s. attempts-Attempts f 4 s;
  ignore_not_found-eq = λ e h. ground arith;
  ignore_not_found_other = λ e h. ground arith;
  contains_finalizer-nil = contains-nil;
  contains_finalizer-add_finalizer = contains-add;
  contains_finalizer-remove_finalizer = contains-without;
  contains_finalizer-of_remove_finalizer = contains-of_without;
  owners = owned;
  set_controller_reference-eq = λ owner m h. refl;
}

abbrev pub memory_kube : Kube
memory_kube = cluster []

abbrev pub memory_kube-Serves : Serves memory_kube
memory_kube-Serves = cluster-Serves []
