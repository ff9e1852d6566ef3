-- ===== src/Kube/Retry.antt =====
-- What client-go documents of `RetryOnConflict` with `DefaultRetry`: the function is tried up to
-- five times, again only after a conflict and a wait, and its last error is returned unchanged.
use pod_checkpoint_controlle.Prelude.{
  ℕ, zero, suc, ◌≡◌, sym, ap, Bool, true, false, Option, none, some,
}
use pod_checkpoint_controlle.Go.Errors.{GoError, is_conflict}

abbrev pub conflicted : Option GoError → Bool
conflicted none = false
conflicted (some e) = is_conflict e

-- The runs of at most `n` attempts of `f`, from a state to the answer. Other clients and the
-- clock move the state on by `wait` between two attempts.
pub data Attempts {S : Type 0} (wait : S → S) (f : S → Option GoError × S)
    : ℕ → S → Option GoError × S → Type 0 where
  settled :
      {n : ℕ} {s : S} {r : Option GoError × S}
      → f s ≡ r
      → conflicted r.0 ≡ false
      → Attempts wait f (suc n) s r
  again :
      {n : ℕ} {s : S} {r : Option GoError × S}
      → conflicted (f s).0 ≡ true
      → Attempts wait f n (wait (f s).1) r
      → Attempts wait f (suc n) s r
  exhausted :
      {n : ℕ} {s : S} {r : Option GoError × S}
      → f s ≡ r
      → conflicted r.0 ≡ true
      → n ≡ zero
      → Attempts wait f (suc n) s r

module _ {S : Type 0} (wait : S → S) (f : S → Option GoError × S) where
  -- An attempt that meets no conflict is the only one.
  pub Attempts-settles :
      {n : ℕ} {s : S} {r : Option GoError × S}
      → conflicted (f s).0 ≡ false
      → Attempts wait f n s r
      → r ≡ f s
  Attempts-settles h (settled e c) = sym e
  Attempts-settles h (again c a) = cc
  Attempts-settles h (exhausted e c z) = sym e

  -- Where every attempt is a conflict, so is the answer.
  pub Attempts-conflicted :
      {n : ℕ} {s : S} {r : Option GoError × S}
      → ((t : S) → conflicted (f t).0 ≡ true)
      → Attempts wait f n s r
      → conflicted r.0 ≡ true
  Attempts-conflicted {s} h (settled e c) = cc (h s, ap (λ q. conflicted q.0) e)
  Attempts-conflicted h (again c a) = Attempts-conflicted h a
  Attempts-conflicted h (exhausted e c z) = c

  -- What each attempt and each wait keeps, the whole run keeps.
  pub Attempts-keeps :
      (P : S → Type 0)
      → ((t : S) → P t → P (f t).1)
      → ((t : S) → P t → P (wait t))
      → {n : ℕ} {s : S} {r : Option GoError × S} → Attempts wait f n s r
      → P s
      → P r.1
  Attempts-keeps P step pause (settled {s = s} e c) h = rw (← e) (step s h)
  Attempts-keeps P step pause (again {s = s} c a) h =
      Attempts-keeps P step pause a (pause (f s).1 (step s h))
  Attempts-keeps P step pause (exhausted {s = s} e c z) h = rw (← e) (step s h)
