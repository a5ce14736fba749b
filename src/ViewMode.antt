-- ===== src/ViewMode.antt =====
-- frontend/src/hooks/useViewMode.ts and frontend/src/components/ViewToggle.tsx: the choice between
-- a list and a grid, which the browser keeps.
use rig_stack.Prelude.{
  String, ◌<>◌, ◌==◌, Option, none, some, List, [], ◌∷◌, Bool, ◌≡◌, refl, arith, Bool-cases, inl,
  inr, eq_iff, or_else, if◌then◌else◌,
}
use text.Mathlib.TextLemmas.{append_cancel_left}

-- `localStorage`: the texts under their keys.
abbrev pub Storage : Type 0
Storage = List (String × String)

unfoldable pub get_item : String → Storage → Option String
get_item k [] = none
get_item k ((j, v) ∷ m) = if j == k then some v else get_item k m

unfoldable pub set_item : String → String → Storage → Storage
set_item k v [] = (k, v) ∷ []
set_item k v ((j, w) ∷ m) = if j == k then (k, v) ∷ m else (j, w) ∷ set_item k v m

-- The modes that the types allow, as texts. The text that is stored is not checked, so the mode of
-- a component can be any text.
abbrev pub grid : String
grid = "grid"

abbrev pub list : String
list = "list"

-- `rigstack:view:${key}`.
abbrev pub storage_key : String → String
storage_key key = "rigstack:view:" <> key

-- The mode with which a component that calls `useViewMode(key, defaultMode)` is mounted.
unfoldable pub mounted_mode : String → String → Storage → String
mounted_mode key default storage = or_else (get_item (storage_key key) storage) default

-- `change`: the mode of the component, and the storage.
unfoldable pub change : String → String → Storage → String × Storage
change key mode storage = (mode, set_item (storage_key key) mode storage)

-- A button of `ViewToggle`: whether it is lit, and the mode that a click passes to `onChange`.
pub record Button : Type 0 where
  pub title : String
  pub lit : Bool
  pub chosen : String

unfoldable pub toggle : String → List Button
toggle mode =
    record { title = "Visualização em lista"; lit = mode == "list"; chosen = list }
    ∷ record { title = "Visualização em grade"; lit = mode == "grid"; chosen = grid }
    ∷ []

get_item-set_item :
    (k j v : String) (m : Storage)
    → get_item j (set_item k v m) ≡ (if k == j then some v else get_item j m)
unfolding get_item set_item
get_item-set_item k j v [] = refl
get_item-set_item k j v ((i, w) ∷ m) =
    ground (arith, eq_iff k j, eq_iff i k, eq_iff i j, get_item-set_item k j v m)

storage_key-eq : (key other : String) → (storage_key key == storage_key other) ≡ (key == other)
storage_key-eq key other = ground (
  arith,
  eq_iff (storage_key key) (storage_key other),
  eq_iff key other,
  append_cancel_left "rigstack:view:" key other,
)

-- A mode that was chosen is the mode with which each component of the same key is mounted later,
-- whatever its default; the components of other keys are mounted as before.
pub change-mounted_mode :
    (key other mode default : String) (storage : Storage)
    → mounted_mode other default (change key mode storage).1
      ≡ (if key == other then mode else mounted_mode other default storage)
unfolding mounted_mode change
change-mounted_mode key other mode default storage =
    rw
      (
        get_item-set_item (storage_key key) (storage_key other) mode storage,
        storage_key-eq key other,
      )
      (elim (Bool-cases (key == other)) [ inl e ↦ rw e | inr e ↦ rw e ])
