-- ===== src/Nodes.antt =====
-- frontend/src/pages/real/Nodes.tsx: the page `RealNodes`, which lists and removes nodes and shows
-- the command that adds one. `host` is `window.location.hostname`, `clipboard` whether the page has
-- `navigator.clipboard`, which a browser gives to secure pages only, and the formats of dates are
-- those of the browser. The colour and the width of the bar for the used memory are left out.
pub mod Requests
pub mod Rendering
use rig_stack.Prelude.{
  ℕ, ◌-◌, String, ◌<>◌, ◌==◌, Bool, true, false, ◌&&◌, not, Option, none, some, List, [], ◌∷◌, map,
  keep, is_empty, length, get_elem?, or_else, is_some, shows_error, truthy, if◌then◌else◌,
}
use rig_stack.Client.Http.{Result, ok, err}
use rig_stack.Client.Types.{ApiNode}
use rig_stack.Client.Format.{fmt_bytes}
use rig_stack.Client.Endpoints.{nodes_list, nodes_delete}
use rig_stack.Runtime.{Out, update, Component}
use rig_stack.StatusBadge.{Badge, badge}

pub record Form : Type 0 where
  pub name : String
  pub region : String

pub record State : Type 0 where
  pub nodes : List ApiNode
  pub loading : Bool
  pub error : Option String
  pub show_modal : Bool
  pub form : Form
  pub copied : Bool

abbrev pub initial : State
initial = record {
  nodes = [];
  loading = true;
  error = none;
  show_modal = false;
  form = record { name = ""; region = "local-1" };
  copied = false;
}

pub data Task : Type 0 where
  loaded deleted copied_timer : Task

abbrev pub Reply : Task → Type 0
Reply loaded = Result (Option (List ApiNode))
Reply deleted = Result (Unit {0})
Reply copied_timer = Unit {0}

-- `remove k agreed` is the delete button of the node at `k`, with the answer to `confirm`.
pub data Event : Type 0 where
  tick refresh open_modal close_modal copy : Event
  set_name set_region : String → Event
  remove : ℕ → Bool → Event

-- `load`.
unfoldable pub load : State → Out State Task
load s = record {
  state = record s { loading = true };
  tasks = loaded ∷ [];
  sent = nodes_list ∷ [];
  alerts = [];
  clipboard = [];
}

unfoldable pub on_loaded : State → Result (Option (List ApiNode)) → Out State Task
on_loaded s (ok n) = update (record s { nodes = or_else n []; loading = false })
on_loaded s (err m) = update (record s { error = some m; loading = false })

-- `handleDelete` up to its `await`, on the node of the button.
abbrev pub remove_node : Option ApiNode → Bool → State → Out State Task
remove_node none agreed s = update s
remove_node (some n) false s = update s
remove_node (some n) true s = record {
  state = s;
  tasks = deleted ∷ [];
  sent = nodes_delete n.id ∷ [];
  alerts = [];
  clipboard = [];
}

abbrev or_default : String → String → String
or_default t d = if truthy t then t else d

unfoldable pub resume : State → (t : Task) → Reply t → Out State Task
unfolding on_loaded load
resume s loaded r = on_loaded s r
resume s deleted r = load s
resume s copied_timer r = update (record s { copied = false })

-- Neither of the early returns of the page is taken.
abbrev pub is_page : State → Bool
is_page s = not (s.loading && is_empty s.nodes) && not (shows_error s.error)

unfoldable pub enabled : State → Event → Bool
enabled s tick = true
enabled s refresh = is_page s
enabled s open_modal = is_page s
enabled s close_modal = is_page s && s.show_modal
enabled s copy = is_page s && s.show_modal
enabled s (set_name t) = is_page s && s.show_modal
enabled s (set_region t) = is_page s && s.show_modal
enabled s (remove k agreed) = is_page s && is_some (get_elem? s.nodes k)

-- `installCmd`.
unfoldable pub install_cmd : String → Form → String
install_cmd host f =
    "curl -fsSL \"http://"
    <> host
    <> ":8080/agent/install.sh?name="
    <> or_default f.name "node-1"
    <> "&region="
    <> or_default f.region "local-1"
    <> "\" | sudo sh -"

module _ (host : String) (clipboard : Bool) where
  -- `copyCmd`; where there is no clipboard it throws an error before it changes the state.
  unfoldable pub copy_cmd : State → Out State Task
  copy_cmd s =
      if clipboard
      then record {
        state = record s { copied = true };
        tasks = copied_timer ∷ [];
        sent = [];
        alerts = [];
        clipboard = install_cmd host s.form ∷ [];
      }
      else update s

  unfoldable pub handle : State → Event → Out State Task
  unfolding load copy_cmd
  handle s tick = load s
  handle s refresh = load s
  handle s open_modal = update (record s { show_modal = true })
  handle s close_modal = update (record s { show_modal = false })
  handle s copy = copy_cmd s
  handle s (set_name t) = update (record s { form = record (s.form) { name = t } })
  handle s (set_region t) = update (record s { form = record (s.form) { region = t } })
  handle s (remove k agreed) = remove_node (get_elem? s.nodes k) agreed s

  abbrev pub page : Component
  page = record {
    State = State;
    Event = Event;
    Task = Task;
    Reply = Reply;
    mount = load initial;
    enabled = enabled;
    handle = handle;
    resume = resume;
  }

abbrev pub is_healthy : ApiNode → Bool
is_healthy n = n.status == "healthy"

-- One node: its texts and its badge.
pub record Card : Type 0 where
  pub name : String
  pub place : String
  pub online : Bool
  pub status : Badge
  pub cpu_cores : ℕ
  pub ram : String
  pub ram_free : String
  pub disk : String
  pub vm_count : ℕ
  pub seen : String

-- The dialog "Add Node".
pub record Modal : Type 0 where
  pub name : String
  pub region : String
  pub command : String
  pub copied : Bool

pub record Shown : Type 0 where
  pub healthy : ℕ
  pub unreachable : ℕ
  pub none_yet : Bool
  pub cards : List Card
  pub modal : Option Modal

pub data View : Type 0 where
  loading : View
  failed : String → View
  shown : Shown → View

module _ (host : String) (date_time date : String → String) where
  unfoldable pub card : ApiNode → Card
  card n = record {
    name = n.name;
    place = n.address <> " · " <> n.region;
    online = is_healthy n;
    status = badge (if is_healthy n then "running" else "error");
    cpu_cores = n.cpu_cores;
    ram = fmt_bytes n.ram_bytes;
    ram_free = fmt_bytes n.ram_free <> " free";
    disk = fmt_bytes n.disk_bytes;
    vm_count = n.vm_count;
    seen = "Last seen " <> date_time n.last_seen <> " · Registered " <> date n.registered_at;
  }

  abbrev modal : State → Modal
  modal s = record {
    name = s.form.name;
    region = s.form.region;
    command = install_cmd host s.form;
    copied = s.copied;
  }

  unfoldable pub shown_page : State → Shown
  shown_page s =
      let healthy = length (keep is_healthy s.nodes) in
      record {
        healthy = healthy;
        unreachable = length s.nodes - healthy;
        none_yet = is_empty s.nodes;
        cards = map card s.nodes;
        modal = if s.show_modal then some (modal s) else none;
      }

  abbrev page_or_error : Option String → State → View
  page_or_error none s = shown (shown_page s)
  page_or_error (some m) s = if truthy m then failed m else shown (shown_page s)

  unfoldable pub view : State → View
  unfolding shown_page
  view s = if s.loading && is_empty s.nodes then loading else page_or_error s.error s
