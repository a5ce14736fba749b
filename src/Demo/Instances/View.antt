-- ===== src/Demo/Instances/View.antt =====
-- frontend/src/pages/Instances.tsx: what the page of instances of the live demo renders.
use rig_stack.Prelude.{
  ℕ, suc, String, ◌<>◌, ◌==◌, Bool, not, Option, none, some, List, [], ◌∷◌, map, keep, is_empty,
  length, truthy, eqb, if◌then◌else◌,
}
use rig_stack.Prelude.Text.{trim, decimal}
use rig_stack.StatusBadge.{Badge, badge}
use rig_stack.Demo.Types.{Instance}
use rig_stack.Demo.Instances.{State, Flavor, flavors, os_options, filtered}

pub record Row : Type 0 where
  pub name : String
  pub status : Badge
  pub vcpus : ℕ
  pub ram : String
  pub disk : String
  pub ip : String
  pub os : String
  pub power_title : String

unfoldable pub row : Instance → Row
row v = record {
  name = v.name;
  status = badge v.status;
  vcpus = v.vcpus;
  ram = v.ram;
  disk = v.disk;
  ip = v.ip;
  os = v.os;
  power_title = if v.status == "running" then "Parar" else "Iniciar";
}

-- The dialog "Nova Instância".
pub record Modal : Type 0 where
  pub name : String
  pub os_choices : List (String × Bool)
  pub flavor_choices : List (String × String × String × Bool)
  pub disk : String
  pub disabled : Bool

flavor_rows : ℕ → ℕ → List Flavor → List (String × String × String × Bool)
flavor_rows chosen i [] = []
flavor_rows chosen i (f ∷ fs) =
    (f.label, decimal f.vcpus <> " vCPU", f.ram, eqb chosen i) ∷ flavor_rows chosen (suc i) fs

unfoldable pub modal : State → Modal
unfolding flavor_rows
modal s = record {
  name = s.form.name;
  os_choices = map (λ os. (os, s.form.os == os)) os_options;
  flavor_choices = flavor_rows s.form.flavor 0 flavors;
  disk = s.form.disk;
  disabled = not (truthy (trim s.form.name));
}

pub record Shown : Type 0 where
  pub search : String
  pub filter : String
  pub options : List (String × String)
  pub none_found : Bool
  pub rows : List Row
  pub modal : Option Modal

abbrev pub with_status : String → List Instance → ℕ
with_status status vms = length (keep (λ (v : Instance). v.status == status) vms)

unfoldable pub shown_page : (String → String) → State → Shown
unfolding modal
shown_page lower s = record {
  search = s.search;
  filter = s.filter;
  options =
      ("all", "Todas (" <> decimal (length s.vms) <> ")")
      ∷ ("running", "Running (" <> decimal (with_status "running" s.vms) <> ")")
      ∷ ("stopped", "Stopped (" <> decimal (with_status "stopped" s.vms) <> ")")
      ∷ [];
  none_found = is_empty (filtered lower s);
  rows = map row (filtered lower s);
  modal = if s.show_modal then some (modal s) else none;
}
