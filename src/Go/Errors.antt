-- ===== src/Go/Errors.antt =====
-- Errors as the program observes them, and results that may be errors.
use pod_checkpoint_controlle.Prelude.{
  ℕ, ◌*◌, String, ◌<>◌, ◌≡◌, refl, ◌⊎◌, inl, inr, Bool, true, false, Option, none, some,
}

-- The classes that `apierrors.IsNotFound`, `IsAlreadyExists` and `IsConflict` tell apart.
pub data Reason : Type 0 where
  not_found already_exists conflict other : Reason

-- An error is observed by its class and by its text, `err.Error()`.
pub record GoError : Type 0 where
  pub reason : Reason
  pub text : String

abbrev pub is_not_found : GoError → Bool
is_not_found e = elim e.reason [ not_found ↦ true | _ ↦ false ]

abbrev pub is_already_exists : GoError → Bool
is_already_exists e = elim e.reason [ already_exists ↦ true | _ ↦ false ]

abbrev pub is_conflict : GoError → Bool
is_conflict e = elim e.reason [ conflict ↦ true | _ ↦ false ]

-- `fmt.Errorf` with no wrapped error.
abbrev pub errorf : String → GoError
errorf text = record { reason = other; text = text }

-- `fmt.Errorf("text: %w", e)`: the chain keeps the class of the error that it wraps.
abbrev pub wrap : String → GoError → GoError
wrap text e = record { reason = e.reason; text = text <> ": " <> e.text }

pub data Result {ℓ} (A : Type ℓ) : Type ℓ where
  ok : A → Result A
  err : GoError → Result A

abbrev pub error_of {ℓ} : {A : Type ℓ} → Result A → Option GoError
error_of (ok a) = none
error_of (err e) = some e

-- `time.Duration` counts nanoseconds.
abbrev pub seconds : ℕ → ℕ
seconds n = n * 1_000_000_000

abbrev pub minutes : ℕ → ℕ
minutes n = n * 60_000_000_000

-- To split on the result of a call and keep the equation.
pub Result-cases {ℓ} :
    {A : Type ℓ} (r : Result A) → ((e : GoError) × (r ≡ err e)) ⊎ ((a : A) × (r ≡ ok a))
Result-cases (ok a) = inr (a, refl)
Result-cases (err e) = inl (e, refl)
