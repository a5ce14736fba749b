-- ===== src/Demo/Images.antt =====
-- frontend/src/pages/Images.tsx: the images and the container registry of the live demo.
use rig_stack.Prelude.{
  ℕ, String, ◌==◌, Bool, true, false, Option, none, some, List, map, keep, or_else, if◌then◌else◌,
  ◌≡◌, refl, inl, inr, eq_refl, Bool-cases,
}
use rig_stack.StatusBadge.{Badge, badge}
use rig_stack.Demo.Types.{Image, ContainerRepo, ContainerTag}
use rig_stack.Demo.Data.Registry as Registry

pub data Tab : Type 0 where
  vm : Tab
  container : Tab

pub record State : Type 0 where
  pub tab : Tab
  pub expanded : Option String

abbrev pub initial : State
initial = record { tab = vm; expanded = none }

-- `prev === id`.
abbrev pub is_expanded : Option String → String → Bool
is_expanded none id = false
is_expanded (some t) id = t == id

-- `toggleRepo`.
unfoldable pub toggle_repo : State → String → State
toggle_repo s id = record s { expanded = if is_expanded s.expanded id then none else some id }

unfoldable pub set_tab : State → Tab → State
set_tab s t = record s { tab = t }

pub record ImageRow : Type 0 where
  pub name : String
  pub os : String
  pub status : Badge
  pub size : String
  pub created_at : String

unfoldable pub image_row : Image → ImageRow
image_row i = record {
  name = i.name;
  os = or_else i.os "—";
  status = badge i.status;
  size = i.size;
  created_at = i.created_at;
}

-- A repository, with its tags if they are shown.
pub record RepoRow : Type 0 where
  pub full_name : String
  pub visibility : String
  pub image_count : ℕ
  pub total_size : String
  pub last_pushed : String
  pub tags : Option (List ContainerTag)

unfoldable pub repo_row : Option String → ContainerRepo → RepoRow
repo_row expanded r = record {
  full_name = r.full_name;
  visibility = if r.is_public then "Público" else "Privado";
  image_count = r.image_count;
  total_size = r.total_size;
  last_pushed = r.last_pushed;
  tags = if is_expanded expanded r.id then some r.tags else none;
}

pub data Shown : Type 0 where
  vm_images : List ImageRow → Shown
  container_registry : List RepoRow → Shown

unfoldable pub view_tab : Tab → Option String → Shown
unfolding image_row repo_row
view_tab vm expanded =
    vm_images (map image_row (keep (λ (i : Image). i.kind == "VM") Registry.images))
view_tab container expanded = container_registry (map (repo_row expanded) Registry.container_repos)

unfoldable pub view : State → Shown
unfolding view_tab
view s = view_tab s.tab s.expanded

-- After a click on a repository each other one is shut; the one itself is open exactly if it was
-- not, and a second click shuts it again. The tab stays.
pub toggle_repo_lem :
    (s : State) (id other : String)
    → ((toggle_repo s id).tab ≡ s.tab)
      × (is_expanded (toggle_repo s id).expanded other
          ≡ (if id == other then (if is_expanded s.expanded id then false else true) else false))
      × (is_expanded (toggle_repo (toggle_repo s id) id).expanded id ≡ is_expanded s.expanded id)
unfolding toggle_repo
toggle_repo_lem s id other = elim (Bool-cases (is_expanded s.expanded id)) [
  | inl open_now ↦
      rw (open_now, eq_refl id)
        (refl, elim (Bool-cases (id == other)) [ inl e ↦ rw e | inr e ↦ rw e ], refl)
  | inr shut ↦
      rw (shut, eq_refl id)
        (refl, elim (Bool-cases (id == other)) [ inl e ↦ rw e | inr e ↦ rw e ], refl)
]
