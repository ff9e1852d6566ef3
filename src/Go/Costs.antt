-- ===== src/Go/Costs.antt =====
-- What a function costs: a relation between the states before and after, with a bound that adds up.
use pod_checkpoint_controlle.Prelude.{
  ℕ, ◌+◌, ◌≤◌, Bool, true, false, Option, none, some, if◌then◌else◌, arith,
}
use pod_checkpoint_controlle.Go.Errors.{GoError, Result, ok, err}
use pod_checkpoint_controlle.Go.Flow.{
  Step, next, return, Flow, then_step, ◌>>=◌, call, exit, answer, or_else, unless_nil, proceed,
}

-- `within n s t`: the way from `s` to `t` costs at most `n`.
pub record Measure (S : Type 0) : Type 1 where
  pub within : ℕ → S → S → Type 0
  pub rest : (s : S) → within 0 s s
  pub chain : {m n : ℕ} {s t u : S} → within m s t → within n t u → within (m + n) s u
  pub relax : {m n : ℕ} {s t : S} → m ≤ n → within m s t → within n s t

-- A function that costs at most `n` from any state.
pub record Costs {S R A : Type 0} (M : Measure S) (n : ℕ) (m : Flow R S A) : Type 0 where
  pub at : (s : S) → M.within n s (m s).1

module _ {S R : Type 0} (M : Measure S) where
  open M use {rest, chain, relax}

  pub Costs-proceed : {n : ℕ} {A : Type 0} (a : A) → Costs {R = R} M n (proceed a)
  Costs-proceed a = record { at = λ s. relax (omega arith) (rest s) }

  pub Costs-exit : {n : ℕ} {A : Type 0} (r : R) → Costs {A = A} M n (exit r)
  Costs-exit r = record { at = λ s. relax (omega arith) (rest s) }

  pub Costs-relax : {m n : ℕ} {A : Type 0} {x : Flow R S A} → m ≤ n → Costs M m x → Costs M n x
  Costs-relax h k = record { at = λ s. relax h (k.at s) }

  pub Costs-call :
      {n : ℕ} {A : Type 0} (f : S → A × S)
      → ((s : S) → M.within n s (f s).1)
      → Costs {R = R} M n (call f)
  Costs-call f h = record { at = h }

  module _ {A B : Type 0} where
    then-within :
        {m n : ℕ} {s t : S} (x : Step R A) (f : A → Flow R S B)
        → M.within m s t
        → ((a : A) → Costs M n (f a))
        → M.within (m + n) s (then_step x f t).1
    then-within (next a) f h k = chain h ((k a).at _)
    then-within (return r) f h k = relax (omega arith) h

    -- A function, and what follows on the value that it gives, if it gives one.
    pub Costs-bind :
        {m n : ℕ} (x : Flow R S A) (f : A → Flow R S B)
        → Costs M m x
        → ((a : A) → Costs M n (f a))
        → Costs M (m + n) (x >>= f)
    Costs-bind x f h k = record { at = λ s. then-within (x s).0 f (h.at s) k }

    pub Costs-free :
        {n : ℕ} (x : Flow R S A) (f : A → Flow R S B)
        → Costs M 0 x
        → ((a : A) → Costs M n (f a))
        → Costs M n (x >>= f)
    Costs-free x f h k = Costs-relax (omega arith) (Costs-bind x f h k)

    -- Only the first step has a price.
    pub Costs-first :
        {n : ℕ} (x : Flow R S A) (f : A → Flow R S B)
        → Costs M n x
        → ((a : A) → Costs M 0 (f a))
        → Costs M n (x >>= f)
    Costs-first x f h k = Costs-relax (omega arith) (Costs-bind x f h k)

  pub Costs-or_else :
      {n : ℕ} {A : Type 0} (x : Result A) (h : GoError → Flow R S A)
      → ((e : GoError) → Costs M n (h e))
      → Costs M n (or_else x h)
  Costs-or_else (ok a) h k = Costs-proceed a
  Costs-or_else (err e) h k = k e

  pub Costs-unless_nil :
      {n : ℕ} (x : Option GoError) (h : GoError → Flow R S (Unit {0}))
      → ((e : GoError) → Costs M n (h e))
      → Costs M n (unless_nil x h)
  Costs-unless_nil none h k = Costs-proceed tt
  Costs-unless_nil (some e) h k = k e

  pub Costs-if :
      {n : ℕ} {A : Type 0} (b : Bool) (x y : Flow R S A)
      → Costs M n x
      → Costs M n y
      → Costs M n (if b then x else y)
  Costs-if true x y h k = h
  Costs-if false x y h k = k

  abbrev AtAnswer : ℕ → S → Step R R × S → Type 0
  AtAnswer n s x = M.within n s x.1 → M.within n s (answer x).1

  of_answer : (n : ℕ) (s : S) (x : Step R R × S) → AtAnswer n s x
  of_answer n s (next r, t) k = k
  of_answer n s (return r, t) k = k

  -- The state that a body ends in.
  pub answer-within :
      {n : ℕ} (m : Flow R S R) → Costs M n m → (s : S) → M.within n s (answer (m s)).1
  answer-within {n} m h s = of_answer n s (m s) (h.at s)

-- `Costs-free` splits a body at its first step, which is free.
pub ruleset cost_rules =
    (Costs-proceed, Costs-exit, Costs-call, Costs-or_else, Costs-unless_nil, Costs-if, Costs-free)
