-- ===== src/Prelude/Dict.antt =====
-- Go's `map[string]string`. A nil map is `none`: it reads as an empty one and takes no write.
use Prim.Native.String.{String}
use mathlib.Core.Path.{◌≡◌}
use mathlib.Core.Option.{Option, none, some}
use mathlib.Core.List.{List, [], ◌∷◌}
use native.Mathlib.Omega.{arith}
use text.Mathlib.Text.{◌==◌}
use text.Mathlib.TextPositions.{eq_refl}
use pod_checkpoint_controlle.Prelude.Tests.{if◌then◌else◌}

abbrev pub Dict : Type 0
Dict = List (String × String)

abbrev pub GoMap : Type 0
GoMap = Option Dict

-- The value of the first entry with a key.
unfoldable pub entry : Dict → String → Option String
entry [] name = none
entry ((key, value) ∷ entries) name = if key == name then some value else entry entries name

-- `m[k] = v` on a map that is not nil.
unfoldable pub insert : String → String → Dict → Dict
insert name value [] = (name, value) ∷ []
insert name value ((key, old) ∷ entries) =
    let others = insert name value entries in
    if key == name then (name, value) ∷ entries else (key, old) ∷ others

-- `v, ok := m[k]`.
unfoldable pub index : String → GoMap → Option String
unfolding entry
index name none = none
index name (some entries) = entry entries name

-- `m[k]`, which is "" for a missing key.
unfoldable pub index_or_empty : String → GoMap → String
unfolding index
index_or_empty name m = elim (index name m) [ none ↦ "" | some value ↦ value ]

entry-insert :
    (name value : String) (entries : Dict) → entry (insert name value entries) name ≡ some value
unfolding entry insert
entry-insert name value [] = ground (arith, eq_refl name)
entry-insert name value ((key, old) ∷ entries) =
    ground (arith, eq_refl name, entry-insert name value entries)

-- What is assigned under a key is read there.
pub index-insert :
    (name value : String) (entries : Dict)
    → index name (some (insert name value entries)) ≡ some value
unfolding index
index-insert name value entries = entry-insert name value entries
