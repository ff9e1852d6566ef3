-- ===== src/Sidecar/Transfer/Outcomes.antt =====
-- Chains of steps of `TransferCheckpoint` that return nil.
use pod_checkpoint_controlle.Prelude.{
  ◌≡◌, refl, sym, ap, subst, ◌∙◌, ◌⊎◌, inl, inr, Option, none, some, String,
}
use pod_checkpoint_controlle.Go.Errors.{GoError, Result, ok, err, wrap}
use pod_checkpoint_controlle.Go.Flow.{Step, next, return, then_step, unless_nil, or_else, answer}
use pod_checkpoint_controlle.Sidecar.Transfer.{Sending, fail_with}

-- A step that returns an error, or goes on with a value of which something is known.
abbrev pub Outcome : {A : Type 0} → (A → Type 0) → Step (Option GoError) A → Type 0
Outcome {A = A} P x = ((e : GoError) × (x ≡ return (some e))) ⊎ ((a : A) × (x ≡ next a) × P a)

pub some_is_not_none : {A : Type 0} {a : A} → some a ≡ none → ⊥
some_is_not_none e = cc (e)

-- If a chain of steps returns nil, its first step goes on, and its rest returns nil.
pub then_nil :
    {S A Goal : Type 0} {P : A → Type 0} {x : Step (Option GoError) A}
    (f : A → Sending S (Option GoError)) (s : S)
    → Outcome P x
    → ((a : A) → P a → (answer (f a s)).0 ≡ none → Goal)
    → (answer (then_step x f s)).0 ≡ none
    → Goal
then_nil f s (inl (e, q)) k h =
    absurd (some_is_not_none (ap (λ y. (answer (then_step y f s)).0) (sym q) ∙ h))
then_nil f s (inr (a, q, p)) k h = k a p (ap (λ y. (answer (then_step y f s)).0) (sym q) ∙ h)

pub then_Outcome :
    {S A B : Type 0} {P : A → Type 0} {Q : B → Type 0} {x : Step (Option GoError) A}
    (f : A → Sending S B) (s : S)
    → Outcome P x
    → ((a : A) → P a → Outcome Q (f a s).0)
    → Outcome Q (then_step x f s).0
then_Outcome f s (inl (e, q)) k = rw q (inl (e, refl))
then_Outcome {Q = Q} f s (inr (a, q, p)) k =
    subst (λ y. Outcome Q (then_step y f s).0) (sym q) (k a p)

-- A test of an error, and of a result with one.
pub unless_nil-Outcome :
    {S : Type 0} (o : Option GoError) (text : String) (s : S)
    → Outcome (λ _. o ≡ none) (unless_nil {R = Option GoError} o (fail_with text) s).0
unfolding fail_with
unless_nil-Outcome none text s = inr (tt, refl, refl)
unless_nil-Outcome (some e) text s = inl (wrap text e, refl)

pub or_else-Outcome :
    {S A : Type 0} (r : Result A) (text : String) (s : S)
    → Outcome (λ a. r ≡ ok a) (or_else {R = Option GoError} r (fail_with text) s).0
unfolding fail_with
or_else-Outcome (ok a) text s = inr (a, refl, refl)
or_else-Outcome (err e) text s = inl (wrap text e, refl)
