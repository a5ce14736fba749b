-- ===== src/Network.antt =====
-- frontend/src/pages/real/Network.tsx: the page `RealNetwork`, which lists, creates and deletes
-- VPCs. `date` is `new Date(t).toLocaleDateString('pt-BR')` of the browser.
pub mod Requests
pub mod Rendering
use rig_stack.Prelude.{
  ℕ, String, ◌==◌, Bool, true, false, ◌&&◌, ◌||◌, not, Option, none, some, List, [], ◌∷◌, map,
  is_empty, get_elem?, or_else, is_some, shows_error, truthy, if◌then◌else◌,
}
use rig_stack.Prelude.Text.{trim}
use rig_stack.Client.Http.{Result, ok, err}
use rig_stack.Client.Types.{ApiVpc}
use rig_stack.Client.Endpoints.{vpcs_list, vpcs_create, vpcs_delete}
use rig_stack.Runtime.{Out, update, Component}
use rig_stack.StatusBadge.{Badge, badge}
use rig_stack.ViewMode.{Storage, Button, mounted_mode, change, toggle}

pub record Form : Type 0 where
  pub name : String
  pub cidr : String

abbrev pub empty_form : Form
empty_form = record { name = ""; cidr = "10.0.1.0/24" }

pub record State : Type 0 where
  pub vpcs : List ApiVpc
  pub loading : Bool
  pub error : Option String
  pub show_modal : Bool
  pub creating : Bool
  pub form : Form
  pub view_mode : String
  pub storage : Storage

unfoldable pub initial : Storage → State
initial storage = record {
  vpcs = [];
  loading = true;
  error = none;
  show_modal = false;
  creating = false;
  form = empty_form;
  view_mode = mounted_mode "network" "grid" storage;
  storage = storage;
}

pub data Task : Type 0 where
  loaded created deleted : Task

abbrev pub Reply : Task → Type 0
Reply loaded = Result (Option (List ApiVpc))
Reply created = Result ApiVpc
Reply deleted = Result (Unit {0})

-- `remove k agreed` is the delete button of the VPC at `k`, with the answer to `confirm`.
pub data Event : Type 0 where
  refresh open_modal close_modal submit : Event
  set_name set_cidr set_view : String → Event
  remove : ℕ → Bool → Event

-- `load`.
unfoldable pub load : State → Out State Task
load s = record {
  state = record s { loading = true };
  tasks = loaded ∷ [];
  sent = vpcs_list ∷ [];
  alerts = [];
  clipboard = [];
}

unfoldable pub on_loaded : State → Result (Option (List ApiVpc)) → Out State Task
on_loaded s (ok v) = update (record s { vpcs = or_else v []; loading = false })
on_loaded s (err m) = update (record s { error = some m; loading = false })

-- `!form.name.trim() || !form.cidr.trim()`.
abbrev pub is_incomplete : Form → Bool
is_incomplete f = not (truthy (trim f.name)) || not (truthy (trim f.cidr))

-- `handleCreate` up to its `await`, and the rest of it.
unfoldable pub handle_create : State → Out State Task
handle_create s = if is_incomplete s.form then update s else record {
  state = record s { creating = true };
  tasks = created ∷ [];
  sent = vpcs_create (trim s.form.name) (trim s.form.cidr) ∷ [];
  alerts = [];
  clipboard = [];
}

unfoldable pub on_created : State → Result ApiVpc → Out State Task
unfolding load
on_created s (ok _) =
    let o = load (record s { show_modal = false; form = empty_form }) in
    record o { state = record (o.state) { creating = false } }
on_created s (err m) = record {
  state = record s { creating = false };
  tasks = [];
  sent = [];
  alerts = m ∷ [];
  clipboard = [];
}

-- `handleDelete` up to its `await`, on the VPC of the button.
abbrev remove_vpc : Option ApiVpc → Bool → State → Out State Task
remove_vpc none agreed s = update s
remove_vpc (some v) false s = update s
remove_vpc (some v) true s = record {
  state = s;
  tasks = deleted ∷ [];
  sent = vpcs_delete v.id ∷ [];
  alerts = [];
  clipboard = [];
}

-- `setView`, the `change` of the hook.
abbrev choose_view : String → State → State
choose_view mode s =
    let (now, stored) = change "network" mode s.storage in
    record s { view_mode = now; storage = stored }

unfoldable pub resume : State → (t : Task) → Reply t → Out State Task
unfolding on_loaded load on_created
resume s loaded r = on_loaded s r
resume s created r = on_created s r
resume s deleted r = load s

-- Neither of the early returns of the page is taken.
abbrev pub is_page : State → Bool
is_page s = not s.loading && not (shows_error s.error)

unfoldable pub enabled : State → Event → Bool
enabled s refresh = is_page s
enabled s open_modal = is_page s
enabled s close_modal = is_page s && s.show_modal
enabled s (set_name t) = is_page s && s.show_modal
enabled s (set_cidr t) = is_page s && s.show_modal
enabled s submit = is_page s && s.show_modal && not (is_incomplete s.form || s.creating)
enabled s (set_view mode) = is_page s && (mode == "list" || mode == "grid")
enabled s (remove k agreed) = is_page s && is_some (get_elem? s.vpcs k)

unfoldable pub handle : State → Event → Out State Task
unfolding load handle_create change
handle s refresh = load s
handle s open_modal = update (record s { show_modal = true })
handle s close_modal = update (record s { show_modal = false })
handle s (set_name t) = update (record s { form = record (s.form) { name = t } })
handle s (set_cidr t) = update (record s { form = record (s.form) { cidr = t } })
handle s submit = handle_create s
handle s (set_view mode) = update (choose_view mode s)
handle s (remove k agreed) = remove_vpc (get_elem? s.vpcs k) agreed s

abbrev pub page : Storage → Component
page storage = record {
  State = State;
  Event = Event;
  Task = Task;
  Reply = Reply;
  mount = load (initial storage);
  enabled = enabled;
  handle = handle;
  resume = resume;
}

-- A VPC, as a row of the table or as a card; the table has a column for the date.
pub record Item : Type 0 where
  pub name : String
  pub cidr : String
  pub status : Badge
  pub created : String

pub data Body : Type 0 where
  none_yet : Body
  table cards : List Item → Body

pub record Modal : Type 0 where
  pub name : String
  pub cidr : String
  pub disabled : Bool
  pub submit_label : String

pub record Shown : Type 0 where
  pub toggle : List Button
  pub body : Body
  pub modal : Option Modal

pub data View : Type 0 where
  loading : View
  failed : String → View
  shown : Shown → View

module _ (date : String → String) where
  abbrev pub item : ApiVpc → Item
  item v = record {
    name = v.name;
    cidr = v.cidr;
    status = badge v.status;
    created = date v.created_at;
  }

  abbrev pub body_of : String → List ApiVpc → Body
  body_of mode [] = none_yet
  body_of mode (v ∷ vs) =
      if mode == "list" then table (map item (v ∷ vs)) else cards (map item (v ∷ vs))

  unfoldable pub body : State → Body
  body s = body_of s.view_mode s.vpcs

  abbrev modal : State → Modal
  modal s = record {
    name = s.form.name;
    cidr = s.form.cidr;
    disabled = is_incomplete s.form || s.creating;
    submit_label = if s.creating then "Criando..." else "Criar VPC";
  }

  abbrev shown_page : State → Shown
  shown_page s = record {
    toggle = toggle s.view_mode;
    body = body s;
    modal = if s.show_modal then some (modal s) else none;
  }

  abbrev page_or_error : Option String → State → View
  page_or_error none s = shown (shown_page s)
  page_or_error (some m) s = if truthy m then failed m else shown (shown_page s)

  unfoldable pub view : State → View
  unfolding body
  view s = if s.loading then loading else page_or_error s.error s
