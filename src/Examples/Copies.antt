-- ===== src/Examples/Copies.antt =====
-- The theorems on deep copies at concrete inputs, where metadata is a pointer to a cell of its own.
use pod_checkpoint_controlle.Prelude.{
  ℕ, ◌<◌, String, ◌≡◌, false, true, some, [], ◌∷◌, arith, eqb, if◌then◌else◌,
}
use pod_checkpoint_controlle.Api.Meta.{ObjectMeta, named}
use pod_checkpoint_controlle.Api.Copies.Structs.{
  ListStruct, ContainerCheckpointContentStruct, PodCheckpointContentStruct,
}
use pod_checkpoint_controlle.Api.Copies.Heap.{
  Cell, time_cell, container_checkpoint_ref_cell, pod_checkpoint_ref_cell, references_array,
  pod_checkpoint_contents_array, pod_checkpoint_contents_of, other_cell, time_of, Heap, Extends,
}
use pod_checkpoint_controlle.Api.Copies.Copying.{Metav1, new_cell, shallow}
use pod_checkpoint_controlle.Api.Copies.Receivers.{
  container_checkpoint_content_copy, pod_checkpoint_content_list_copy,
}
use pod_checkpoint_controlle.Api.Copies.Independence.{seen, new_cell-Copies, shallow-Copies}
use pod_checkpoint_controlle.Api.Copies.Parts.{CopiesMeta}
use pod_checkpoint_controlle.Api.Copies.Objects.{
  container_checkpoint_content_at, pod_checkpoint_content_at,
}
use pod_checkpoint_controlle.Api.Copies.Deep.{
  list_at, container_checkpoint_content_copy_lem, pod_checkpoint_content_list_copy_lem,
}

abbrev C : Type 0
C = Cell ℕ ObjectMeta

abbrev meta_of : C → ObjectMeta
meta_of c = elim c [ other_cell m ↦ m | _ ↦ named "" "" ]

abbrev metav1 : Metav1 ℕ String ObjectMeta
metav1 = record { time_copy = new_cell; object_meta_into = new_cell; list_meta_into = shallow }

abbrev deep_metav1 : CopiesMeta metav1
deep_metav1 = record {
  time-Copies = new_cell-Copies time_of;
  object_meta_at = λ a h. meta_of (h.cell a);
  ObjectMetaIsIn = λ a h. a < h.next;
  object_meta-Copies = new_cell-Copies meta_of;
  ListMeta = String;
  list_meta_at = λ x h. x;
  ListMetaIsIn = λ x h. Unit;
  list_meta-Copies = shallow-Copies;
}

abbrev written : ℕ → C → Heap C → Heap C
written a c h = record h { cell = λ b. if eqb b a then c else h.cell b }

-- A content, with its metadata, its reference and its time in three cells.
abbrev content : ContainerCheckpointContentStruct ℕ
content = record {
  metadata = 0;
  spec = record {
    container_checkpoint_ref = some 1;
    deletion_policy = "Delete";
    storage_location = "node://n2";
  };
  status = record { ready_to_restore = false; error_message = ""; checkpoint_time = some 2 };
}

abbrev memory : Heap C
memory = written 0 (other_cell (named "" "web-app")) (
    written 1 (container_checkpoint_ref_cell (record { name = "web-app"; namespace = "shop" }))
      (record { next = 3; cell = λ a. time_cell 7 }))

-- The sidecar's next step: the time of the original is written over.
abbrev later : Heap C
later = written 2 (time_cell 99) (container_checkpoint_content_copy metav1 (some content) memory).1

container_checkpoint_content_copy_lem_example :
    Extends memory (container_checkpoint_content_copy metav1 (some content) memory).1
    × (seen
          (container_checkpoint_content_at deep_metav1)
          (container_checkpoint_content_copy metav1 (some content) memory).0
          later
        ≡ seen (container_checkpoint_content_at deep_metav1) (some content) memory)
container_checkpoint_content_copy_lem_example =
    container_checkpoint_content_copy_lem deep_metav1 (some content) memory later
      (omega arith, (omega arith, omega arith)) (λ a from to. ground (arith, from))

-- A list of one PodCheckpointContent, which has an array of one reference.
abbrev pod_content : PodCheckpointContentStruct ℕ
pod_content = record {
  metadata = 0;
  spec = record {
    pod_checkpoint_ref = some 1;
    deletion_policy = "Retain";
    pod_uid = "u";
    pod_namespace = "shop";
    pod_name = "web";
    storage_location = "";
    container_checkpoints = some 3;
  };
  status = record { checkpoint_time = some 2; ready_to_restore = true; error_message = "" };
}

abbrev list : ListStruct String
list = record { metadata = "page 1"; items = some 4 }

abbrev list_memory : Heap C
list_memory = written 0 (other_cell (named "" "snap-pcc")) (
    written 1 (pod_checkpoint_ref_cell (record { name = "snap"; namespace = "shop" })) (
      written 3
        (references_array
          (record { container_name = "app"; container_checkpoint_content_name = "snap-app" } ∷ []))
        (written 4 (pod_checkpoint_contents_array (pod_content ∷ []))
          (record { next = 5; cell = λ a. time_cell 7 }))))

-- The original's items are dropped.
abbrev dropped : Heap C
dropped =
    written 4 (pod_checkpoint_contents_array [])
      (pod_checkpoint_content_list_copy metav1 (some list) list_memory).1

pod_checkpoint_content_list_copy_lem_example :
    Extends list_memory (pod_checkpoint_content_list_copy metav1 (some list) list_memory).1
    × (seen
          (list_at deep_metav1 pod_checkpoint_contents_of (pod_checkpoint_content_at deep_metav1))
          (pod_checkpoint_content_list_copy metav1 (some list) list_memory).0
          dropped
        ≡ seen
            (list_at deep_metav1 pod_checkpoint_contents_of (pod_checkpoint_content_at deep_metav1))
            (some list)
            list_memory)
pod_checkpoint_content_list_copy_lem_example =
    pod_checkpoint_content_list_copy_lem deep_metav1 (some list) list_memory dropped
      (tt, (omega arith, ((omega arith, ((omega arith, omega arith), omega arith)), tt)))
      (λ a from to. ground (arith, from))
