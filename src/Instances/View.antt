-- ===== src/Instances/View.antt =====
-- frontend/src/pages/real/Instances.tsx: what the page `RealInstances` renders, its texts, buttons
-- and dialogs; styling and icons are left out.
use rig_stack.Prelude.{
  ℕ, suc, String, ◌<>◌, ◌==◌, Bool, ◌||◌, ◌&&◌, Option, none, some, List, [], ◌∷◌, map, keep,
  is_empty, or_dash, length, truthy, if◌then◌else◌, eqb,
}
use rig_stack.Prelude.Text.{decimal}
use rig_stack.Client.Types.{ApiInstance, ApiVpc}
use rig_stack.Client.Format.{fmt_ram}
use rig_stack.StatusBadge.{Badge, badge}
use rig_stack.Instances.{
  State, Filter, OsOption, os_options, Flavor, flavors, in_transition, is_incomplete,
}
use rig_stack.Instances.Page.{filtered}

-- A row of the table. Its buttons, to stop or start and to delete, are disabled together.
pub record Row : Type 0 where
  pub link : String
  pub name : String
  pub status : Badge
  pub vcpus : ℕ
  pub ram : String
  pub disk : String
  pub ip : String
  pub os : String
  pub power_title : String
  pub disabled : Bool

-- The dialog "Nova Instância".
pub record CreateModal : Type 0 where
  pub name : String
  pub vpc : String
  pub vpc_choices : List (String × String)
  pub hint : Bool
  pub os_choices : List (String × Bool)
  pub flavor_choices : List (String × String × String × Bool)
  pub ssh_pubkey : String
  pub disabled : Bool
  pub submit_label : String

-- The dialog "Terminar instância".
pub record DeleteModal : Type 0 where
  pub name : String
  pub id : String
  pub status : Badge
  pub ip : String
  pub vpc : String
  pub os : String
  pub resources : String

pub record Shown : Type 0 where
  pub search : String
  pub filter : Filter
  pub all_count : ℕ
  pub running_count : ℕ
  pub stopped_count : ℕ
  pub none_found : Bool
  pub rows : List Row
  pub create_modal : Option CreateModal
  pub delete_modal : Option DeleteModal

pub data View : Type 0 where
  loading : View
  failed : String → View
  shown : Shown → View

abbrev pub has_status : String → ApiInstance → Bool
has_status status i = i.status == status

unfoldable pub row : ApiInstance → Row
row i = record {
  link = "/instances/" <> i.id;
  name = i.name;
  status = badge i.status;
  vcpus = i.vcpus;
  ram = fmt_ram i.ram_mb;
  disk = decimal i.disk_gb <> " GB";
  ip = or_dash i.ip_address;
  os = i.os_image;
  power_title = if i.status == "running" then "Parar" else "Iniciar";
  disabled = in_transition i;
}

-- The flavors with their indices, of which that of the form is marked.
flavor_rows : ℕ → ℕ → List Flavor → List (String × String × String × Bool)
flavor_rows chosen i [] = []
flavor_rows chosen i (f ∷ fs) =
    (f.label, decimal f.vcpus <> " vCPU", fmt_ram f.ram_mb, eqb chosen i)
    ∷ flavor_rows chosen (suc i) fs

unfoldable pub create_modal : State → CreateModal
unfolding flavor_rows
create_modal s = record {
  name = s.form.name;
  vpc = s.form.vpc_id;
  vpc_choices =
      ("", "Selecione uma VPC")
      ∷ map (λ (v : ApiVpc). (v.id, v.name <> " (" <> v.cidr <> ")")) s.vpcs;
  hint = is_empty s.vpcs;
  os_choices = map (λ (o : OsOption). (o.label, s.form.os == o.value)) os_options;
  flavor_choices = flavor_rows s.form.flavor 0 flavors;
  ssh_pubkey = s.form.ssh_pubkey;
  disabled = is_incomplete s.form || s.creating;
  submit_label = if s.creating then "Criando..." else "Criar Instância";
}

-- `vpcMap[id]`: of two VPCs with one id `Object.fromEntries` keeps the last.
unfoldable pub vpc_of : String → List ApiVpc → Option ApiVpc
vpc_of id [] = none
vpc_of id (v ∷ vs) = elim (vpc_of id vs) [
  | some w ↦ some w
  | none ↦ if v.id == id then some v else none
]

unfoldable pub delete_modal : State → ApiInstance → DeleteModal
unfolding vpc_of
delete_modal s i = record {
  name = i.name;
  id = i.id;
  status = badge i.status;
  ip = or_dash i.ip_address;
  vpc = elim (vpc_of i.vpc_id s.vpcs) [
    | some v ↦ v.name <> " (" <> v.cidr <> ")"
    | none ↦ or_dash i.vpc_id
  ];
  os = i.os_image;
  resources =
      decimal i.vcpus <> " vCPU · " <> fmt_ram i.ram_mb <> " · " <> decimal i.disk_gb <> " GB";
}

abbrev delete_dialog : State → Option ApiInstance → Option DeleteModal
delete_dialog s none = none
delete_dialog s (some i) = some (delete_modal s i)

module _ (lower : String → String) where
  unfoldable pub shown_page : State → Shown
  shown_page s = record {
    search = s.search;
    filter = s.filter;
    all_count = length s.instances;
    running_count = length (keep (has_status "running") s.instances);
    stopped_count = length (keep (has_status "stopped") s.instances);
    none_found = is_empty (filtered lower s);
    rows = map row (filtered lower s);
    create_modal = if s.show_modal then some (create_modal s) else none;
    delete_modal = delete_dialog s s.delete_target;
  }

  abbrev page_or_error : Option String → State → View
  page_or_error none s = shown (shown_page s)
  page_or_error (some m) s = if truthy m then failed m else shown (shown_page s)

  -- The two early returns, and the page.
  unfoldable pub view : State → View
  unfolding shown_page
  view s = if s.loading && is_empty s.instances then loading else page_or_error s.error s
