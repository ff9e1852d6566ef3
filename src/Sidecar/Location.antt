-- ===== src/Sidecar/Location.antt =====
-- How the controller and the sidecar agree on where a checkpoint goes: the controller writes a
-- storage location, and the sidecar reads a node's name from it.
use text.Mathlib.TextPositions.{starts_with-append, slice-append_right, len-append}
use pod_checkpoint_controlle.Prelude.{
  String, ◌<>◌, ◌==◌, ◌≡◌, ◌∙◌, ◌⊎◌, inl, inr, refl, ap, false, none, some, [], arith, eq_iff,
  Option-cases, Bool-cases,
}
use pod_checkpoint_controlle.Prelude.Dict.{GoMap, index, index_or_empty, index-insert}
use pod_checkpoint_controlle.Api.Meta.{Container, Pod}
use pod_checkpoint_controlle.Api.Pods.{PodCheckpoint}
use pod_checkpoint_controlle.Api.Migrations.{PodMigration}
use pod_checkpoint_controlle.Pods.{target_of}
use pod_checkpoint_controlle.Pods.Members.{annotate, fill_in}
use pod_checkpoint_controlle.Migrations.{new_checkpoint}
use pod_checkpoint_controlle.Api.Containers.{ContainerCheckpoint}
use pod_checkpoint_controlle.Containers.{target_node, storage_location, new_content}
use pod_checkpoint_controlle.Sidecar.Reconciler.{trim_prefix, target_of_location}

trim_prefix-append : (p t : String) → trim_prefix (p <> t) p ≡ t
unfolding trim_prefix
trim_prefix-append p t = rw (starts_with-append p t, len-append p t) (slice-append_right p t)

storage_location-named :
    (c : ContainerCheckpoint) (t : String)
    → index target_node c.metadata.annotations ≡ some t
    → (t == "") ≡ false
    → storage_location c ≡ "node://" <> t
unfolding storage_location
storage_location-named c t named filled = ground arith

target_of_location-scheme : (t : String) → target_of_location ("node://" <> t) ≡ t
unfolding target_of_location
target_of_location-scheme t = rw (starts_with-append "node://" t) (trim_prefix-append "node://" t)

-- A checkpoint whose annotation names a target node, which is not empty, is stored at a location
-- that the sidecar reads as that node, whatever the name.
pub target_of_location-storage_location :
    (c : ContainerCheckpoint) (t : String)
    → index target_node c.metadata.annotations ≡ some t
    → (t == "") ≡ false
    → target_of_location (storage_location c) ≡ t
target_of_location-storage_location c t named filled =
    rw (storage_location-named c t named filled) (target_of_location-scheme t)

storage_location-unnamed :
    (c : ContainerCheckpoint)
    → (index target_node c.metadata.annotations ≡ none)
      ⊎ (index target_node c.metadata.annotations ≡ some "")
    → storage_location c ≡ "local"
unfolding storage_location
storage_location-unnamed c (inl h) = rw (h, storage_location)
storage_location-unnamed c (inr h) = rw (h, storage_location)

location_local : target_of_location "local" ≡ "local"
unfolding target_of_location
location_local = refl

-- Whatever the annotations are: a checkpoint whose annotations name a target node that is not empty is
-- stored at "node://" with that name, and the sidecar reads the name from it; and a checkpoint whose
-- annotations name none, or an empty one, is stored at "local", which the sidecar takes for the name
-- of a node as well.
pub storage_location-read :
    (c : ContainerCheckpoint)
    → ((t : String) × (index target_node c.metadata.annotations ≡ some t)
        × ((t == "") ≡ false)
        × (storage_location c ≡ "node://" <> t)
        × (target_of_location (storage_location c) ≡ t))
      ⊎ (((index target_node c.metadata.annotations ≡ none)
            ⊎ (index target_node c.metadata.annotations ≡ some ""))
          × (storage_location c ≡ "local")
          × (target_of_location (storage_location c) ≡ "local"))
storage_location-read c = elim (Option-cases (index target_node c.metadata.annotations)) [
  | inl unnamed ↦ inr (unnamed_read (inl unnamed))
  | inr (t, named) ↦ elim (Bool-cases (t == "")) [
    | inr filled ↦ inl (
      t,
      named,
      filled,
      storage_location-named c t named filled,
      target_of_location-storage_location c t named filled,
    )
    | inl bare ↦ inr (unnamed_read (inr (named ∙ ap some ((eq_iff t "").0 bare))))
  ]
]
  where
    unnamed_read :
        (h : (index target_node c.metadata.annotations ≡ none)
          ⊎ (index target_node c.metadata.annotations ≡ some ""))
        → ((index target_node c.metadata.annotations ≡ none)
            ⊎ (index target_node c.metadata.annotations ≡ some ""))
          × (storage_location c ≡ "local")
          × (target_of_location (storage_location c) ≡ "local")
    unnamed_read h =
        (h, storage_location-unnamed c h, rw (storage_location-unnamed c h) location_local)

index-annotate :
    (t : String) (m : GoMap) → (t == "") ≡ false → index target_node (annotate t m) ≡ some t
index-annotate t none filled = rw (filled, index-insert target_node t [])
index-annotate t (some m) filled = rw (filled, index-insert target_node t m)

index-fill_in :
    (pc : PodCheckpoint) (p : Pod) (c : Container) (m : ContainerCheckpoint)
    → (target_of pc == "") ≡ false
    → index target_node (fill_in pc p c m).metadata.annotations ≡ some (target_of pc)
unfolding fill_in
index-fill_in pc p c m filled = index-annotate (target_of pc) m.metadata.annotations filled

-- The target node of a PodCheckpoint, unless it is empty, is the node that the sidecar reads from
-- the storage location of each container's content: through the ContainerCheckpoint that
-- `CreateOrUpdate` fills in, whatever that object was before, and the content that is created for
-- it.
pub target_of_location-fill_in :
    (pc : PodCheckpoint) (p : Pod) (c : Container) (m : ContainerCheckpoint)
    → (target_of pc == "") ≡ false
    → target_of_location (new_content (fill_in pc p c m)).spec.storage_location ≡ target_of pc
unfolding new_content
target_of_location-fill_in pc p c m filled =
    target_of_location-storage_location (fill_in pc p c m) (target_of pc)
      (index-fill_in pc p c m filled) filled

new_checkpoint_target : (pm : PodMigration) → target_of (new_checkpoint pm) ≡ pm.spec.target_node
unfolding new_checkpoint index_or_empty
new_checkpoint_target pm = refl

-- The target node that a PodMigration names, unless it is empty, is the node that the sidecar reads
-- from the storage location of each container's content: through the PodCheckpoint that the
-- migration creates, the ContainerCheckpoint that is filled in for it, whatever that object was
-- before, and the content that is created for that.
pub target_of_location-new_checkpoint :
    (pm : PodMigration) (p : Pod) (c : Container) (m : ContainerCheckpoint)
    → (pm.spec.target_node == "") ≡ false
    → target_of_location (new_content (fill_in (new_checkpoint pm) p c m)).spec.storage_location
      ≡ pm.spec.target_node
target_of_location-new_checkpoint pm p c m filled =
    target_of_location-fill_in (new_checkpoint pm) p c m (rw (new_checkpoint_target pm) filled)
    ∙ new_checkpoint_target pm
