-- ===== src/Go/Flow.antt =====
-- A reconciler's body: a sequence of steps over the outside world, each of which goes on to the
-- next one or returns from the whole function.
use pod_checkpoint_controlle.Prelude.{ℕ, Bool, true, false, Option, none, some, if◌then◌else◌}
use pod_checkpoint_controlle.Go.Errors.{GoError, Result, ok, err}

-- `ctrl.Result`.
pub record CtrlResult : Type 0 where
  pub requeue : Bool
  pub requeue_after : ℕ

-- What `Reconcile` returns.
pub record Reply : Type 0 where
  pub result : CtrlResult
  pub error : Option GoError

-- `ctrl.Result{}, err`, for an error that may be nil.
abbrev pub reply_of : Option GoError → Reply
reply_of e = record { result = record { requeue = false; requeue_after = 0 }; error = e }

-- `ctrl.Result{}, nil`.
abbrev pub finished : Reply
finished = reply_of none

abbrev pub requeue_now : Reply
requeue_now = record { result = record { requeue = true; requeue_after = 0 }; error = none }

abbrev pub requeue_in : ℕ → Reply
requeue_in d = record { result = record { requeue = false; requeue_after = d }; error = none }

-- A step goes on with a value, or returns from the function with an answer of type `R`.
pub data Step (R A : Type 0) : Type 0 where
  next : A → Step R A
  return : R → Step R A

abbrev pub Flow : Type 0 → Type 0 → Type 0 → Type 0
Flow R S A = S → Step R A × S

module _ {R S : Type 0} where
  abbrev pub proceed : {A : Type 0} → A → Flow R S A
  proceed a s = (next a, s)

  abbrev pub exit : {A : Type 0} → R → Flow R S A
  exit r s = (return r, s)

  abbrev pub then_step : {A B : Type 0} → Step R A → (A → Flow R S B) → Flow R S B
  then_step (next a) f s = f a s
  then_step (return r) f s = (return r, s)

  infixl 5 ◌>>=◌ ◌>>◌
  abbrev pub ◌>>=◌ : {A B : Type 0} → Flow R S A → (A → Flow R S B) → Flow R S B
  ◌>>=◌ m f s = let (r, s') = m s in then_step r f s'

  abbrev pub ◌>>◌ : {A B : Type 0} → Flow R S A → Flow R S B → Flow R S B
  m >> n = m >>= λ _. n

  -- A call that returns a value.
  abbrev pub call : {A : Type 0} → (S → A × S) → Flow R S A
  call f s = let (a, s') = f s in (next a, s')

  -- `if err != nil { handler }`, for a call that returns a value or an error.
  abbrev pub or_else : {A : Type 0} → Result A → (GoError → Flow R S A) → Flow R S A
  or_else (ok a) h = proceed a
  or_else (err e) h = h e

  -- `if err != nil { handler }`, for a call that returns an error or nil.
  abbrev pub unless_nil : Option GoError → (GoError → Flow R S (Unit {0})) → Flow R S (Unit {0})
  unless_nil none h = proceed tt
  unless_nil (some e) h = h e

  -- The body of a function: its last step returns.
  abbrev pub answer : Step R R × S → R × S
  answer (next r, s) = (r, s)
  answer (return r, s) = (r, s)

-- `if err != nil && !ignored(err) { return ctrl.Result{}, err }`.
abbrev pub check : {S : Type 0} → (GoError → Bool) → Option GoError → Flow Reply S (Unit {0})
check ignored e = unless_nil e (λ x. if ignored x then proceed tt else exit (reply_of (some x)))
