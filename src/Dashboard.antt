-- ===== src/Dashboard.antt =====
-- frontend/src/pages/real/Dashboard.tsx: the page `RealDashboard`, which counts the instances and
-- the nodes. The width of the bar for the used memory is left out.
pub mod Counting
use rig_stack.Prelude.{
  ℕ, ◌+◌, ◌-◌, String, ◌<>◌, ◌==◌, Bool, true, false, Option, none, some, List, [], ◌∷◌, map, keep,
  is_empty, length, or_else, or_dash, truthy, ltb, take, if◌then◌else◌,
}
use rig_stack.Prelude.Text.{decimal}
use rig_stack.Client.Http.{Result, ok, err}
use rig_stack.Client.Types.{ApiInstance, ApiNode}
use rig_stack.Client.Format.{fmt_bytes}
use rig_stack.Client.Endpoints.{instances_list, nodes_list}
use rig_stack.Runtime.{Out, update, Component}

pub record State : Type 0 where
  pub instances : List ApiInstance
  pub nodes : List ApiNode
  pub loading : Bool
  pub error : Option String

abbrev pub initial : State
initial = record { instances = []; nodes = []; loading = true; error = none }

pub data Task : Type 0 where
  loaded : Task

abbrev pub Reply : Task → Type 0
Reply loaded = Result (Option (List ApiInstance) × Option (List ApiNode))

-- The timer of 15 s; the page has nothing to click on.
pub data Event : Type 0 where
  tick : Event

-- `load`, which leaves `loading` alone.
unfoldable pub load : State → Out State Task
load s = record {
  state = s;
  tasks = loaded ∷ [];
  sent = instances_list ∷ nodes_list ∷ [];
  alerts = [];
  clipboard = [];
}

unfoldable pub on_loaded :
    State → Result (Option (List ApiInstance) × Option (List ApiNode)) → Out State Task
on_loaded s (ok (inst, nd)) =
    update (record s { instances = or_else inst []; nodes = or_else nd []; loading = false })
on_loaded s (err m) = update (record s { error = some m; loading = false })

unfoldable pub resume : State → (t : Task) → Reply t → Out State Task
unfolding on_loaded
resume s loaded r = on_loaded s r

unfoldable pub handle : State → Event → Out State Task
unfolding load
handle s tick = load s

abbrev pub page : Component
page = record {
  State = State;
  Event = Event;
  Task = Task;
  Reply = Reply;
  mount = load initial;
  enabled = λ s e. true;
  handle = handle;
  resume = resume;
}

-- How many instances have a status, and how many nodes are healthy.
abbrev pub with_status : String → List ApiInstance → ℕ
with_status status is = length (keep (λ (i : ApiInstance). i.status == status) is)

abbrev pub healthy_nodes : List ApiNode → ℕ
healthy_nodes ns = length (keep (λ (n : ApiNode). n.status == "healthy") ns)

-- `reduce` with a sum.
unfoldable pub sum_of : (ApiNode → ℕ) → List ApiNode → ℕ
sum_of f [] = 0
sum_of f (n ∷ ns) = f n + sum_of f ns

pub data Icon : Type 0 where
  check alert clock : Icon

pub record Recent : Type 0 where
  pub icon : Icon
  pub name : String
  pub resources : String
  pub ip : String

pub record Shown : Type 0 where
  pub running : ℕ
  pub stopped : ℕ
  pub pending : ℕ
  pub total : ℕ
  pub healthy : ℕ
  pub unreachable : ℕ
  pub vms : ℕ
  pub ram : String
  pub ram_free : String
  pub has_bar : Bool
  pub nodes : List (Bool × String × String)
  pub recent : List Recent

pub data View : Type 0 where
  loading : View
  failed : String → View
  shown : Shown → View

unfoldable pub recent_row : ApiInstance → Recent
recent_row i = record {
  icon = if i.status == "running" then check else if i.status == "error" then alert else clock;
  name = i.name;
  resources = i.os_image <> " · " <> decimal i.vcpus <> " vCPU · " <> decimal i.ram_mb <> " MB";
  ip = or_dash i.ip_address;
}

abbrev pub node_row : ApiNode → Bool × String × String
node_row n = (n.status == "healthy", n.name, n.region <> " · " <> decimal n.vm_count <> " VMs")

unfoldable pub shown_page : State → Shown
unfolding sum_of recent_row
shown_page s =
    let total_ram = sum_of (λ n. n.ram_bytes) s.nodes in
    record {
      running = with_status "running" s.instances;
      stopped = with_status "stopped" s.instances;
      pending = with_status "pending" s.instances;
      total = length s.instances;
      healthy = healthy_nodes s.nodes;
      unreachable = length s.nodes - healthy_nodes s.nodes;
      vms = sum_of (λ n. n.vm_count) s.nodes;
      ram = fmt_bytes total_ram;
      ram_free = fmt_bytes (sum_of (λ n. n.ram_free) s.nodes);
      has_bar = ltb 0 total_ram;
      nodes = map node_row s.nodes;
      recent = map recent_row (take 6 s.instances);
    }

abbrev page_or_error : Option String → State → View
page_or_error none s = shown (shown_page s)
page_or_error (some m) s = if truthy m then failed m else shown (shown_page s)

unfoldable pub view : State → View
unfolding shown_page
view s = if s.loading then loading else page_or_error s.error s
