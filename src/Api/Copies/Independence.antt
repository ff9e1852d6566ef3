-- ===== src/Api/Copies/Independence.antt =====
-- What it is for a function of api/v1/zz_generated.deepcopy.go to copy deeply, and how the copy of a
-- struct is one if those of its fields are.
use pod_checkpoint_controlle.Prelude.{
  ℕ, ◌<◌, ◌≡◌, refl, sym, ap, subst, ◌∙◌, Option, none, some, List, [], ◌∷◌, arith,
}
use pod_checkpoint_controlle.Prelude.All.{All}
use pod_checkpoint_controlle.Api.Copies.Heap.{
  Heap, alloc, Below, Above, Extends, Extends-refl, Extends-trans, alloc-Extends, alloc-cell,
}
use pod_checkpoint_controlle.Api.Copies.Copying.{
  Into, shallow, when_set, new_cell, each, array_into,
}

-- `view x h` is what the struct `x` denotes in the memory `h`, and `IsIn x h` says that its pointers
-- point to cells in use. The copy changes no cell in use, and denotes the same as the struct, in any
-- memory that holds the same in the new cells, whatever the others hold.
pub record CopiesAt {C S V : Type 0} (into : Into C S) (view : S → Heap C → V)
    (IsIn : S → Heap C → Type 0) (x : S) : Type 0 where
  pub stable : (h k : Heap C) → IsIn x h → Below h k → view x k ≡ view x h
  pub stays : (h k : Heap C) → IsIn x h → Extends h k → IsIn x k
  pub extends : (h : Heap C) → IsIn x h → Extends h (into x h).1
  pub reads :
      (h k : Heap C) → IsIn x h → Above h.next (into x h).1 k → view (into x h).0 k ≡ view x h

abbrev pub Copies : {C S V : Type 0} → Into C S → (S → Heap C → V) → (S → Heap C → Type 0) → Type 0
Copies {S = S} into view IsIn = (x : S) → CopiesAt into view IsIn x

module _ {C : Type 0} where
  pub shallow-Copies : {S : Type 0} → Copies {C = C} {S = S} shallow (λ x h. x) (λ x h. Unit)
  shallow-Copies x = record {
    stable = λ h k v below. refl;
    stays = λ h k v e. v;
    extends = λ h v. Extends-refl h;
    reads = λ h k v above. refl;
  }

  -- A pointer, that may be nil.
  abbrev pub seen : {S V : Type 0} → (S → Heap C → V) → Option S → Heap C → Option V
  seen view none h = none
  seen view (some x) h = some (view x h)

  abbrev pub IsSeen : {S : Type 0} → (S → Heap C → Type 0) → Option S → Heap C → Type 0
  IsSeen IsIn none h = Unit
  IsSeen IsIn (some x) h = IsIn x h

  pub when_set-Copies :
      {S V : Type 0} {f : Into C S} {view : S → Heap C → V} {IsIn : S → Heap C → Type 0}
      → Copies f view IsIn
      → Copies (when_set f) (seen view) (IsSeen IsIn)
  unfolding when_set
  when_set-Copies F none = record {
    stable = λ h k v below. refl;
    stays = λ h k v e. v;
    extends = λ h v. Extends-refl h;
    reads = λ h k v above. refl;
  }
  when_set-Copies F (some x) =
      let at_x = F x in
      record {
        stable = λ h k v below. ap some (at_x.stable h k v below);
        stays = at_x.stays;
        extends = at_x.extends;
        reads = λ h k v above. ap some (at_x.reads h k v above);
      }

  -- A cell that is read as a value.
  abbrev pub cell_as : {V : Type 0} → (C → V) → ℕ → Heap C → V
  cell_as of a h = of (h.cell a)

  abbrev pub InUse : ℕ → Heap C → Type 0
  InUse a h = a < h.next

  pub new_cell-Copies : {V : Type 0} (of : C → V) → Copies new_cell (cell_as of) InUse
  unfolding alloc
  new_cell-Copies of a = record {
    stable = λ h k v below. ap of (below a v);
    stays = λ h k v e. let g = e.grows in omega (arith, v, g);
    extends = λ h v. alloc-Extends (h.cell a) h;
    reads =
        λ h k v above. ap of (above h.next (omega arith) (omega arith) ∙ alloc-cell (h.cell a) h);
  }

  -- A field after another.
  abbrev pub AreBothIn :
      {S T : Type 0} → (S → Heap C → Type 0) → (T → Heap C → Type 0) → S × T → Heap C → Type 0
  AreBothIn IsIn_f IsIn_g x h = IsIn_f x.0 h × IsIn_g x.1 h

  abbrev pub both : {S T : Type 0} → Into C S → Into C T → Into C (S × T)
  both f g x h = let (y, h₁) = f x.0 h in let (z, h₂) = g x.1 h₁ in ((y, z), h₂)

  module _ {S T V W : Type 0} {f : Into C S} {g : Into C T} {view_f : S → Heap C → V}
      {view_g : T → Heap C → W} {IsIn_f : S → Heap C → Type 0} {IsIn_g : T → Heap C → Type 0} where
    module _ {x : S} {y : T} (F : CopiesAt f view_f IsIn_f x) (G : CopiesAt g view_g IsIn_g y) where
      both-reads :
          (h k : Heap C)
          → AreBothIn IsIn_f IsIn_g (x, y) h
          → Above h.next (both f g (x, y) h).1 k
          → (view_f (both f g (x, y) h).0.0 k ≡ view_f x h)
            × (view_g (both f g (x, y) h).0.1 k ≡ view_g y h)
      both-reads h k v above =
          let h₁ : Heap C = (f x h).1 in
          let e = F.extends h v.0 in
          let v₁ = G.stays h h₁ v.1 e in
          let e₁ = G.extends h₁ v₁ in
          let m = e.grows in
          let m₁ = e₁.grows in
          (
            F.reads h k v.0
                (λ a from_h to_h₁. above a from_h (omega (arith, to_h₁, m₁)) ∙ e₁.keeps a to_h₁),
            (G.reads h₁ k v₁ (λ a from_h₁ to_h₂. above a (omega (arith, from_h₁, m)) to_h₂)
                ∙ G.stable h h₁ v.1 e.keeps),
          )

      pub both-CopiesAt :
          CopiesAt {V = V × W}
            (both f g)
            (λ z h. (view_f z.0 h, view_g z.1 h))
            (AreBothIn IsIn_f IsIn_g)
            (x, y)
      both-CopiesAt = record {
        stable = λ h k v below. rw (F.stable h k v.0 below, G.stable h k v.1 below) refl;
        stays = λ h k v e. (F.stays h k v.0 e, G.stays h k v.1 e);
        extends = λ h v.
            let e = F.extends h v.0 in
            Extends-trans e (G.extends (f x h).1 (G.stays h (f x h).1 v.1 e));
        reads = λ h k v above. let (p, q) = both-reads h k v above in rw (p, q) refl;
      }

    pub both-Copies :
        Copies f view_f IsIn_f
        → Copies g view_g IsIn_g
        → Copies {V = V × W}
            (both f g)
            (λ z h. (view_f z.0 h, view_g z.1 h))
            (AreBothIn IsIn_f IsIn_g)
    both-Copies F G z = both-CopiesAt (F z.0) (G z.1)

  -- A struct `S` whose fields with pointers are `T`: `split` takes them out, `join` puts copies in.
  pub struct-Copies :
      {S T V W : Type 0} {f : Into C T} {view_f : T → Heap C → V} {IsIn_f : T → Heap C → Type 0}
      (split : S → T) (join : S → T → S) (show : S → V → W)
      → ((x : S) (y : T) → split (join x y) ≡ y)
      → ((x : S) (y : T) (v : V) → show (join x y) v ≡ show x v)
      → Copies f view_f IsIn_f
      → Copies
          (λ x h. let (y, h') = f (split x) h in (join x y, h'))
          (λ x h. show x (view_f (split x) h))
          (λ x h. IsIn_f (split x) h)
  struct-Copies {f = f} {view_f = view_f} split join show split-join show-join F x =
      let at_x = F (split x) in
      record {
        stable = λ h k v below. ap (show x) (at_x.stable h k v below);
        stays = at_x.stays;
        extends = at_x.extends;
        reads = λ h k v above.
            show-join x (f (split x) h).0 (view_f (split (join x (f (split x) h).0)) k)
            ∙ ap (show x)
                (ap (λ y. view_f y k) (split-join x (f (split x) h).0) ∙ at_x.reads h k v above);
      }

  -- The elements of an array.
  unfoldable pub seen_all : {S V : Type 0} → (S → Heap C → V) → List S → Heap C → List V
  seen_all view [] h = []
  seen_all view (x ∷ l) h = view x h ∷ seen_all view l h

  abbrev pub AreIn : {S : Type 0} → (S → Heap C → Type 0) → List S → Heap C → Type 0
  AreIn IsIn l h = All (λ x. IsIn x h) l

  pub each-Copies :
      {S V : Type 0} {f : Into C S} {view : S → Heap C → V} {IsIn : S → Heap C → Type 0}
      → Copies f view IsIn
      → Copies (each f) (seen_all view) (AreIn IsIn)
  unfolding each seen_all
  each-Copies F [] = record {
    stable = λ h k v below. refl;
    stays = λ h k v e. v;
    extends = λ h v. Extends-refl h;
    reads = λ h k v above. refl;
  }
  each-Copies F (x ∷ l) =
      let at_x = both-CopiesAt (F x) (each-Copies F l) in
      record {
        stable = λ h k v below. ap (λ p. p.0 ∷ p.1) (at_x.stable h k v below);
        stays = at_x.stays;
        extends = at_x.extends;
        reads = λ h k v above. ap (λ p. p.0 ∷ p.1) (at_x.reads h k v above);
      }

  -- The array of a slice.
  abbrev pub array_as : {S V : Type 0} → (C → List S) → (S → Heap C → V) → ℕ → Heap C → List V
  array_as array_of view a h = seen_all view (array_of (h.cell a)) h

  abbrev pub IsArrayIn : {S : Type 0} → (C → List S) → (S → Heap C → Type 0) → ℕ → Heap C → Type 0
  IsArrayIn array_of IsIn a h = InUse a h × AreIn IsIn (array_of (h.cell a)) h

  pub array-Copies :
      {S V : Type 0} (array_of : C → List S) (cell_of : List S → C) {f : Into C S}
      {view : S → Heap C → V} {IsIn : S → Heap C → Type 0}
      → ((l : List S) → array_of (cell_of l) ≡ l)
      → Copies f view IsIn
      → Copies (array_into array_of cell_of f) (array_as array_of view) (IsArrayIn array_of IsIn)
  unfolding array_into alloc
  array-Copies {S = S} array_of cell_of {f = f} {view = view} {IsIn = IsIn} same F a = record {
    stable = λ h k v below.
        ap (λ c. seen_all view (array_of c) k) (below a v.0)
        ∙ (each-Copies F (array_of (h.cell a))).stable h k v.1 below;
    stays = λ h k v e.
        let g = e.grows in
        (
          omega (arith, v, g),
          subst (λ c. AreIn IsIn (array_of c) k) (sym (e.keeps a v.0))
              ((each-Copies F (array_of (h.cell a))).stays h k v.1 e),
        );
    extends = λ h v. Extends-trans ((each-Copies F (array_of (h.cell a))).extends h v.1) (
        alloc-Extends (cell_of (each f (array_of (h.cell a)) h).0)
          (each f (array_of (h.cell a)) h).1);
    reads = λ h k v above.
        let l : List S = (each f (array_of (h.cell a)) h).0 in
        let h' : Heap C = (each f (array_of (h.cell a)) h).1 in
        let at_l = each-Copies F (array_of (h.cell a)) in
        let e = at_l.extends h v.1 in
        let g = e.grows in
        let held : k.cell h'.next ≡ cell_of l =
          above h'.next g (omega arith) ∙ alloc-cell (cell_of l) h' in
        ap (λ c. seen_all view (array_of c) k) held
        ∙ (ap (λ m. seen_all view m k) (same l)
            ∙ at_l.reads h k v.1 (λ b from to.
              above b from (omega (arith, to)) ∙ (alloc-Extends (cell_of l) h').keeps b to));
  }

  -- The same, seen in another form.
  pub shown-Copies :
      {S V W : Type 0} (show : V → W) {f : Into C S} {view : S → Heap C → V}
      {IsIn : S → Heap C → Type 0}
      → Copies f view IsIn
      → Copies f (λ x h. show (view x h)) IsIn
  shown-Copies show F x =
      let at_x = F x in
      record {
        stable = λ h k v below. ap show (at_x.stable h k v below);
        stays = at_x.stays;
        extends = at_x.extends;
        reads = λ h k v above. ap show (at_x.reads h k v above);
      }
