-- ===== src/Instances.antt =====
-- frontend/src/pages/real/Instances.tsx: the state of the page `RealInstances`, its handlers and
-- the continuations of its requests.
pub mod Page
pub mod View
pub mod Creation
pub mod Errors
pub mod Table
pub mod Deletion
pub mod Accepted
pub mod Requests
use rig_stack.Prelude.{
  ℕ, String, ◌==◌, Bool, true, false, ◌&&◌, ◌||◌, not, Option, none, some, List, [], ◌∷◌, map, any,
  keep, get_elem?, or_else, is_some, is_empty, shows_error, truthy, if◌then◌else◌,
}
use rig_stack.Prelude.Text.{trim, includes}
use rig_stack.Client.Http.{Result, ok, err}
use rig_stack.Client.Types.{ApiInstance, ApiVpc}
use rig_stack.Client.Endpoints.{
  CreateData, instances_list, vpcs_list, instances_create, instances_start, instances_stop,
  instances_delete,
}
use rig_stack.Runtime.{Out, update, Component}

pub record OsOption : Type 0 where
  pub label : String
  pub value : String

abbrev pub os_options : List OsOption
os_options =
    record { label = "Ubuntu 24.04 LTS"; value = "ubuntu-24.04" }
    ∷ record { label = "Debian 13"; value = "debian-13" }
    ∷ record { label = "Debian 12"; value = "debian-12" }
    ∷ []

pub record Flavor : Type 0 where
  pub label : String
  pub vcpus : ℕ
  pub ram_mb : ℕ
  pub disk_gb : ℕ

abbrev pub flavors : List Flavor
flavors =
    record { label = "Micro"; vcpus = 1; ram_mb = 512; disk_gb = 10 }
    ∷ record { label = "Small"; vcpus = 2; ram_mb = 2048; disk_gb = 20 }
    ∷ record { label = "Medium"; vcpus = 4; ram_mb = 8192; disk_gb = 50 }
    ∷ []

abbrev pub transition_states : List String
transition_states = "starting" ∷ "stopping" ∷ "terminating" ∷ "pending" ∷ []

-- `TRANSITION_STATES.has(i.status)`.
abbrev pub in_transition : ApiInstance → Bool
in_transition i = any (λ s. i.status == s) transition_states

pub data Filter : Type 0 where
  every running stopped : Filter

pub record Form : Type 0 where
  pub name : String
  pub vpc_id : String
  pub os : String
  pub flavor : ℕ
  pub ssh_pubkey : String

abbrev pub empty_form : Form
empty_form = record { name = ""; vpc_id = ""; os = "ubuntu-24.04"; flavor = 1; ssh_pubkey = "" }

pub record State : Type 0 where
  pub instances : List ApiInstance
  pub vpcs : List ApiVpc
  pub loading : Bool
  pub error : Option String
  pub search : String
  pub filter : Filter
  pub show_modal : Bool
  pub creating : Bool
  pub form : Form
  pub delete_target : Option ApiInstance

abbrev pub initial : State
initial = record {
  instances = [];
  vpcs = [];
  loading = true;
  error = none;
  search = "";
  filter = every;
  show_modal = false;
  creating = false;
  form = empty_form;
  delete_target = none;
}

-- The continuations that wait: those of a load, of the four requests that a handler awaits, and of
-- the timer that `confirmDelete` sets.
pub data Task : Type 0 where
  loaded started stopped deleted created reload_timer : Task

-- What a continuation is given. A load is `Promise.all`: both lists, either of which may be `null`,
-- or the message of the first request that fails.
abbrev pub Reply : Task → Type 0
Reply loaded = Result (Option (List ApiInstance) × Option (List ApiVpc))
Reply started = Result (Unit {0})
Reply stopped = Result (Unit {0})
Reply deleted = Result (Unit {0})
Reply created = Result ApiInstance
Reply reload_timer = Unit {0}

pub data Event : Type 0 where
  tick refresh open_modal close_modal submit cancel_delete confirm_delete : Event
  set_search set_name set_vpc set_os set_ssh_pubkey : String → Event
  set_filter : Filter → Event
  set_flavor power ask_delete : ℕ → Event

-- `load`.
unfoldable pub load : State → Out State Task
load s = record {
  state = record s { loading = true };
  tasks = loaded ∷ [];
  sent = instances_list ∷ vpcs_list ∷ [];
  alerts = [];
  clipboard = [];
}

-- The continuations of `load`.
unfoldable pub on_loaded :
    State → Result (Option (List ApiInstance) × Option (List ApiVpc)) → Out State Task
on_loaded s (ok (inst, v)) =
    update (record s { instances = or_else inst []; vpcs = or_else v []; loading = false })
on_loaded s (err m) = update (record s { error = some m; loading = false })

-- `handleStart` and `handleStop` up to their `await`.
unfoldable pub handle_start : String → State → Out State Task
handle_start id s = record {
  state = s;
  tasks = started ∷ [];
  sent = instances_start id ∷ [];
  alerts = [];
  clipboard = [];
}

unfoldable pub handle_stop : String → State → Out State Task
handle_stop id s = record {
  state = s;
  tasks = stopped ∷ [];
  sent = instances_stop id ∷ [];
  alerts = [];
  clipboard = [];
}

-- `{ ...i, status: 'terminating' }` for the instance of that id, and `i` for any other.
abbrev pub terminate : String → ApiInstance → ApiInstance
terminate id i = if i.id == id then record i { status = "terminating" } else i

-- `confirmDelete` up to its `await`.
unfoldable pub confirm : State → Out State Task
confirm s = elim s.delete_target [
  | none ↦ update s
  | some target ↦ record {
    state = record s { delete_target = none; instances = map (terminate target.id) s.instances };
    tasks = deleted ∷ [];
    sent = instances_delete target.id ∷ [];
    alerts = [];
    clipboard = [];
  }
]

-- `!form.name.trim() || !form.vpc_id`.
abbrev pub is_incomplete : Form → Bool
is_incomplete f = not (truthy (trim f.name)) || not (truthy f.vpc_id)

abbrev pub create_data : Form → Flavor → CreateData
create_data f flavor = record {
  name = trim f.name;
  vpc_id = f.vpc_id;
  vcpus = flavor.vcpus;
  ram_mb = flavor.ram_mb;
  disk_gb = flavor.disk_gb;
  os_image = f.os;
  ssh_pubkey = some f.ssh_pubkey;
}

-- The message of the browser for `FLAVORS[i].vcpus` where there is no such flavor.
abbrev undefined_flavor : String
undefined_flavor = "Cannot read properties of undefined (reading 'vcpus')"

-- `handleCreate` up to its `await`.
unfoldable pub handle_create : State → Out State Task
handle_create s =
    if is_incomplete s.form then update s else elim (get_elem? flavors s.form.flavor) [
      | none ↦ record {
        state = record s { creating = false };
        tasks = [];
        sent = [];
        alerts = undefined_flavor ∷ [];
        clipboard = [];
      }
      | some flavor ↦ record {
        state = record s { creating = true };
        tasks = created ∷ [];
        sent = instances_create (create_data s.form flavor) ∷ [];
        alerts = [];
        clipboard = [];
      }
    ]

-- The rest of `handleCreate`: the `try` block, the `catch` block, and after either the `finally`.
unfoldable pub on_created : State → Result ApiInstance → Out State Task
unfolding load
on_created s (ok _) =
    let o = load (record s { show_modal = false; form = empty_form }) in
    record o { state = record (o.state) { creating = false } }
on_created s (err m) = record {
  state = record s { creating = false };
  tasks = [];
  sent = [];
  alerts = m ∷ [];
  clipboard = [];
}

-- What waits is picked up; a failed start, stop or delete is passed over in silence.
unfoldable pub resume : State → (t : Task) → Reply t → Out State Task
unfolding on_loaded load on_created
resume s loaded r = on_loaded s r
resume s started r = load s
resume s stopped r = load s
resume s deleted r = record {
  state = s;
  tasks = reload_timer ∷ [];
  sent = [];
  alerts = [];
  clipboard = [];
}
resume s created r = on_created s r
resume s reload_timer r = load s
