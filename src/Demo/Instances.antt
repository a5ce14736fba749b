-- ===== src/Demo/Instances.antt =====
-- frontend/src/pages/Instances.tsx: the page of instances of the live demo. `lower` is
-- `toLowerCase`. An event carries what the browser's clock gives, and what `Math.random` draws for
-- each row in turn: times 200 and rounded down, it is any number below 200, that of a number of the
-- environment modulo 200.
pub mod View
pub mod Power
pub mod Booting
use rig_stack.Prelude.{
  ℕ, suc, ◌+◌, ◌%◌, String, ◌<>◌, ◌==◌, Bool, true, false, ◌&&◌, ◌||◌, not, Option, none, some,
  List, [], ◌∷◌, map, keep, any, get_elem?, length, ltb, truthy, if◌then◌else◌,
}
use rig_stack.Prelude.Text.{trim, includes, decimal}
use rig_stack.Runtime.{Out, update, Component}
use rig_stack.Demo.Types.{Instance}
use rig_stack.Demo.Data.Compute.{instances}

abbrev pub os_options : List String
os_options = "Ubuntu 24.04 LTS" ∷ "Debian 12" ∷ "Rocky Linux 9" ∷ []

pub record Flavor : Type 0 where
  pub label : String
  pub vcpus : ℕ
  pub ram : String
  pub price : String

abbrev pub flavors : List Flavor
flavors =
    record { label = "Micro"; vcpus = 1; ram = "512 MB"; price = "free" }
    ∷ record { label = "Small"; vcpus = 2; ram = "2 GB"; price = "free" }
    ∷ record { label = "Medium"; vcpus = 4; ram = "8 GB"; price = "free" }
    ∷ []

pub record Form : Type 0 where
  pub name : String
  pub os : String
  pub flavor : ℕ
  pub disk : String

abbrev pub empty_form : Form
empty_form = record { name = ""; os = "Ubuntu 24.04 LTS"; flavor = 0; disk = "20" }

pub record State : Type 0 where
  pub vms : List Instance
  pub search : String
  pub filter : String
  pub show_modal : Bool
  pub form : Form

abbrev pub initial : State
initial = record {
  vms = instances;
  search = "";
  filter = "all";
  show_modal = false;
  form = empty_form;
}

-- The timer of a new machine, with its id.
pub data Task : Type 0 where
  boot : String → Task

abbrev pub Reply : Task → Type 0
Reply (boot id) = ℕ → ℕ

pub data Event : Type 0 where
  search_typed : String → Event
  filter_chosen : String → Event
  modal_opened : Event
  modal_closed : Event
  name_typed : String → Event
  os_chosen : String → Event
  flavor_chosen : ℕ → Event
  disk_typed : String → Event
  submitted : String → String → Event
  power : String → (ℕ → ℕ) → Event
  removed : String → Event

-- `192.168.1.${Math.floor(Math.random() * 200) + 10}`.
abbrev pub random_ip : ℕ → String
random_ip draw = "192.168.1." <> decimal (draw % 200 + 10)

abbrev pub no_ip : String
no_ip = "—"

-- `prev.map(v => v.id === id ? change(v) : v)`, where each change makes one draw.
unfoldable pub change_rows :
    String → (Instance → ℕ → Instance) → (ℕ → ℕ) → List Instance → List Instance
change_rows id change draw [] = []
change_rows id change draw (v ∷ vs) =
    let skipped = change_rows id change draw vs in
    let drawn = change_rows id change (λ n. draw (suc n)) vs in
    if v.id == id then change v (draw 0) ∷ drawn else v ∷ skipped

abbrev pub toggled : Instance → ℕ → Instance
toggled v draw =
    if v.status == "running"
    then record v { status = "stopped"; ip = no_ip }
    else record v { status = "running"; ip = random_ip draw }

abbrev pub booted : Instance → ℕ → Instance
booted v draw = record v { status = "running"; ip = random_ip draw }

-- `toggleStatus`.
unfoldable pub toggle_status : State → String → (ℕ → ℕ) → Out State Task
unfolding change_rows
toggle_status s id draw = update (record s { vms = change_rows id toggled draw s.vms })

-- `deleteVm`.
unfoldable pub delete_vm : State → String → Out State Task
delete_vm s id = update (record s { vms = keep (λ (v : Instance). not (v.id == id)) s.vms })

abbrev pub new_vm : String → String → Form → Flavor → Instance
new_vm now date f flavor = record {
  id = now;
  name = trim f.name;
  status = "pending";
  vcpus = flavor.vcpus;
  ram = flavor.ram;
  disk = f.disk <> " GB";
  ip = no_ip;
  os = f.os;
  created_at = date;
}

-- `createVm`, where `now` is `String(Date.now())` and `date` the day of the ISO date. An index that
-- no flavor has ends it with an exception.
unfoldable pub create_vm : State → String → String → Out State Task
create_vm s now date =
    if not (truthy (trim s.form.name)) then update s else elim (get_elem? flavors s.form.flavor) [
      | none ↦ update s
      | some flavor ↦ record {
        state = record s {
          vms = new_vm now date s.form flavor ∷ s.vms;
          show_modal = false;
          form = empty_form;
        };
        tasks = boot now ∷ [];
        sent = [];
        alerts = [];
        clipboard = [];
      }
    ]

unfoldable pub resume : State → (t : Task) → Reply t → Out State Task
unfolding change_rows
resume s (boot id) draw = update (record s { vms = change_rows id booted draw s.vms })

unfoldable pub handle : State → Event → Out State Task
unfolding toggle_status delete_vm create_vm
handle s (search_typed t) = update (record s { search = t })
handle s (filter_chosen t) = update (record s { filter = t })
handle s modal_opened = update (record s { show_modal = true })
handle s modal_closed = update (record s { show_modal = false })
handle s (name_typed t) = update (record s { form = record s.form { name = t } })
handle s (os_chosen t) = update (record s { form = record s.form { os = t } })
handle s (flavor_chosen i) = update (record s { form = record s.form { flavor = i } })
handle s (disk_typed t) = update (record s { form = record s.form { disk = t } })
handle s (submitted now date) = create_vm s now date
handle s (power id draw) = toggle_status s id draw
handle s (removed id) = delete_vm s id

module _ (lower : String → String) where
  -- `filtered`.
  abbrev pub matches : State → Instance → Bool
  matches s v =
      includes (lower v.name) (lower s.search) && (s.filter == "all" || v.status == s.filter)

  unfoldable pub filtered : State → List Instance
  filtered s = keep (matches s) s.vms

  -- What the rendered page can cause.
  unfoldable pub enabled : State → Event → Bool
  unfolding filtered
  enabled s (search_typed t) = true
  enabled s (filter_chosen t) = t == "all" || t == "running" || t == "stopped"
  enabled s modal_opened = true
  enabled s modal_closed = s.show_modal
  enabled s (name_typed t) = s.show_modal
  enabled s (os_chosen t) = s.show_modal && any (λ os. os == t) os_options
  enabled s (flavor_chosen i) = s.show_modal && ltb i (length flavors)
  enabled s (disk_typed t) = s.show_modal
  enabled s (submitted now date) = s.show_modal && truthy (trim s.form.name)
  enabled s (power id draw) = any (λ (v : Instance). v.id == id) (filtered s)
  enabled s (removed id) = any (λ (v : Instance). v.id == id) (filtered s)

  abbrev pub page : Component
  page = record {
    State = State;
    Event = Event;
    Task = Task;
    Reply = Reply;
    mount = update initial;
    enabled = enabled;
    handle = handle;
    resume = resume;
  }
