-- ===== src/Prelude/All.antt =====
-- What holds of every element of a list.
use mathlib.Core.List.{List, [], ◌∷◌}

-- A predicate by recursion, which computes to a tuple.
abbrev pub All {ℓ κ} : {A : Type ℓ} → (A → Type κ) → List A → Type κ
All P [] = Unit
All P (x ∷ xs) = P x × All P xs

pub All-map {ℓ κ ι} :
    {A : Type ℓ} (P : A → Type κ) (Q : A → Type ι) (f : (x : A) → P x → Q x) (xs : List A)
    → All P xs
    → All Q xs
All-map P Q f [] h = tt
All-map P Q f (x ∷ xs) h = (f x h.0, All-map P Q f xs h.1)

pub All-zip {ℓ κ ι ο} :
    {A : Type ℓ} (P : A → Type κ) (Q : A → Type ι) (R : A → Type ο) (f : (x : A) → P x → Q x → R x)
    (xs : List A)
    → All P xs
    → All Q xs
    → All R xs
All-zip P Q R f [] h k = tt
All-zip P Q R f (x ∷ xs) h k = (f x h.0 k.0, All-zip P Q R f xs h.1 k.1)
