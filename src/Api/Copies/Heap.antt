-- ===== src/Api/Copies/Heap.antt =====
-- The memory that deep copies are made in: cells at addresses, of which those below `next` are in use.
use pod_checkpoint_controlle.Prelude.{
  ℕ, suc, ◌≤◌, ◌<◌, String, ◌≡◌, refl, ◌∙◌, List, [], arith, eqb, if◌then◌else◌,
}
use pod_checkpoint_controlle.Api.Containers.{ContainerCheckpointRef}
use pod_checkpoint_controlle.Api.Pods.{PodCheckpointRef, ContainerCheckpointReference}
use pod_checkpoint_controlle.Api.Copies.Structs.{
  ContainerCheckpointStruct, ContainerCheckpointContentStruct, PodCheckpointStruct,
  PodCheckpointContentStruct, PodMigrationStruct,
}

-- What a cell holds: what a pointer field points to, or the array of a slice. `O` is what the cells of
-- other packages hold.
pub data Cell (M O : Type 0) : Type 0 where
  text_cell : String → Cell M O
  time_cell : ℕ → Cell M O
  container_checkpoint_ref_cell : ContainerCheckpointRef → Cell M O
  pod_checkpoint_ref_cell : PodCheckpointRef → Cell M O
  references_array : List ContainerCheckpointReference → Cell M O
  container_checkpoints_array : List (ContainerCheckpointStruct M) → Cell M O
  container_checkpoint_contents_array : List (ContainerCheckpointContentStruct M) → Cell M O
  pod_checkpoints_array : List (PodCheckpointStruct M) → Cell M O
  pod_checkpoint_contents_array : List (PodCheckpointContentStruct M) → Cell M O
  pod_migrations_array : List (PodMigrationStruct M) → Cell M O
  other_cell : O → Cell M O

-- What a cell of a kind holds; the zero value, of another.
module _ {M O : Type 0} where
  abbrev pub text_of : Cell M O → String
  text_of c = elim c [ text_cell t ↦ t | _ ↦ "" ]

  abbrev pub time_of : Cell M O → ℕ
  time_of c = elim c [ time_cell t ↦ t | _ ↦ 0 ]

  abbrev pub container_checkpoint_ref_of : Cell M O → ContainerCheckpointRef
  container_checkpoint_ref_of c = elim c [
    | container_checkpoint_ref_cell r ↦ r
    | _ ↦ record { name = ""; namespace = "" }
  ]

  abbrev pub pod_checkpoint_ref_of : Cell M O → PodCheckpointRef
  pod_checkpoint_ref_of c = elim c [
    | pod_checkpoint_ref_cell r ↦ r
    | _ ↦ record { name = ""; namespace = "" }
  ]

  abbrev pub references_of : Cell M O → List ContainerCheckpointReference
  references_of c = elim c [ references_array l ↦ l | _ ↦ [] ]

  abbrev pub container_checkpoints_of : Cell M O → List (ContainerCheckpointStruct M)
  container_checkpoints_of c = elim c [ container_checkpoints_array l ↦ l | _ ↦ [] ]

  abbrev pub container_checkpoint_contents_of : Cell M O → List (ContainerCheckpointContentStruct M)
  container_checkpoint_contents_of c = elim c [ container_checkpoint_contents_array l ↦ l | _ ↦ [] ]

  abbrev pub pod_checkpoints_of : Cell M O → List (PodCheckpointStruct M)
  pod_checkpoints_of c = elim c [ pod_checkpoints_array l ↦ l | _ ↦ [] ]

  abbrev pub pod_checkpoint_contents_of : Cell M O → List (PodCheckpointContentStruct M)
  pod_checkpoint_contents_of c = elim c [ pod_checkpoint_contents_array l ↦ l | _ ↦ [] ]

  abbrev pub pod_migrations_of : Cell M O → List (PodMigrationStruct M)
  pod_migrations_of c = elim c [ pod_migrations_array l ↦ l | _ ↦ [] ]

pub record Heap (C : Type 0) : Type 0 where
  pub next : ℕ
  pub cell : ℕ → C

module _ {C : Type 0} where
  -- `new` and `make`, with what is written there at once.
  unfoldable pub alloc : C → Heap C → ℕ × Heap C
  alloc c h =
      (h.next, record { next = suc h.next; cell = λ a. if eqb a h.next then c else h.cell a })

  -- The cells in use in `h`, and those from an address on, hold the same in `k`.
  abbrev pub Below : Heap C → Heap C → Type 0
  Below h k = (a : ℕ) → a < h.next → k.cell a ≡ h.cell a

  abbrev pub Above : ℕ → Heap C → Heap C → Type 0
  Above n h k = (a : ℕ) → n ≤ a → a < h.next → k.cell a ≡ h.cell a

  -- Nothing in use has changed from `h` to `k`.
  pub record Extends (h k : Heap C) : Type 0 where
    pub grows : h.next ≤ k.next
    pub keeps : Below h k

  pub Extends-refl : (h : Heap C) → Extends h h
  Extends-refl h = record { grows = omega arith; keeps = λ a in_use. refl }

  pub Extends-trans : {h k l : Heap C} → Extends h k → Extends k l → Extends h l
  Extends-trans p q = record {
    grows = let x = p.grows in let y = q.grows in omega (arith, x, y);
    keeps = λ a in_use. let x = p.grows in q.keeps a (omega (arith, x, in_use)) ∙ p.keeps a in_use;
  }

  pub alloc-Extends : (c : C) (h : Heap C) → Extends h (alloc c h).1
  unfolding alloc
  alloc-Extends c h = record { grows = omega arith; keeps = λ a in_use. ground (arith, in_use) }

  pub alloc-cell : (c : C) (h : Heap C) → (alloc c h).1.cell h.next ≡ c
  unfolding alloc
  alloc-cell c h = ground arith

  pub alloc-next : (c : C) (h : Heap C) → h.next < (alloc c h).1.next
  unfolding alloc
  alloc-next c h = omega arith
