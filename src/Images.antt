-- ===== src/Images.antt =====
-- frontend/src/pages/real/Images.tsx: the page `RealImages`, which lists the images and has the
-- controller deploy them.
pub mod Deploying
use rig_stack.Prelude.{
  ℕ, String, ◌<>◌, ◌==◌, Bool, true, false, ◌&&◌, not, Option, none, some, List, [], ◌∷◌, map,
  get_elem?, or_else, shows_error, truthy, if◌then◌else◌,
}
use rig_stack.Prelude.Text.{decimal, split_slash}
use rig_stack.Client.Http.{Result, ok, err}
use rig_stack.Client.Types.{ApiImage}
use rig_stack.Client.Endpoints.{images_list, images_deploy}
use rig_stack.Runtime.{Out, update, Component}

-- The answer to a deployment.
pub record Queued : Type 0 where
  pub queued : Bool
  pub nodes : List String

-- An object used as a map: `{ ...d, [id]: v }` and `d[id]`.
abbrev pub put {ℓ} : {A : Type ℓ} → String → A → (String → Option A) → String → Option A
put id v d k = if id == k then some v else d k

abbrev pub no_keys {ℓ} : {A : Type ℓ} → String → Option A
no_keys k = none

pub record State : Type 0 where
  pub images : List ApiImage
  pub loading : Bool
  pub error : Option String
  pub deploying : String → Option Bool
  pub deployed : String → Option (List String)

abbrev pub initial : State
initial = record {
  images = [];
  loading = true;
  error = none;
  deploying = no_keys;
  deployed = no_keys;
}

pub data Task : Type 0 where
  loaded : Task
  answered : String → Task

abbrev pub Reply : Task → Type 0
Reply loaded = Result (List ApiImage)
Reply (answered id) = Result Queued

-- The button of the image at an index.
pub data Event : Type 0 where
  deploy : ℕ → Event

-- The effect of the first render.
unfoldable pub load : State → Out State Task
load s = record {
  state = s;
  tasks = loaded ∷ [];
  sent = images_list ∷ [];
  alerts = [];
  clipboard = [];
}

unfoldable pub on_loaded : State → Result (List ApiImage) → Out State Task
on_loaded s (ok images) = update (record s { images = images; loading = false })
on_loaded s (err m) = update (record s { error = some m; loading = false })

-- `handleDeploy` up to its `await`, and the rest of it.
unfoldable pub handle_deploy : String → State → Out State Task
handle_deploy id s = record {
  state = record s { deploying = put id true s.deploying };
  tasks = answered id ∷ [];
  sent = images_deploy id ∷ [];
  alerts = [];
  clipboard = [];
}

unfoldable pub on_answered : String → State → Result Queued → Out State Task
on_answered id s (ok res) =
    update
      (record s { deployed = put id res.nodes s.deployed; deploying = put id false s.deploying })
on_answered id s (err m) = record {
  state = record s { deploying = put id false s.deploying };
  tasks = [];
  sent = [];
  alerts = m ∷ [];
  clipboard = [];
}

unfoldable pub resume : State → (t : Task) → Reply t → Out State Task
unfolding on_loaded on_answered
resume s loaded r = on_loaded s r
resume s (answered id) r = on_answered id s r

abbrev pub is_page : State → Bool
is_page s = not s.loading && not (shows_error s.error)

-- `isDeploying`.
abbrev pub is_deploying : State → String → Bool
is_deploying s id = or_else (s.deploying id) false

abbrev button_enabled : Option ApiImage → State → Bool
button_enabled none s = false
button_enabled (some img) s = not (is_deploying s img.id)

abbrev press_button : Option ApiImage → State → Out State Task
press_button none s = update s
press_button (some img) s = handle_deploy img.id s

unfoldable pub enabled : State → Event → Bool
enabled s (deploy k) = is_page s && button_enabled (get_elem? s.images k) s

unfoldable pub handle : State → Event → Out State Task
unfolding handle_deploy
handle s (deploy k) = press_button (get_elem? s.images k) s

abbrev pub page : Component
page = record {
  State = State;
  Event = Event;
  Task = Task;
  Reply = Reply;
  mount = load initial;
  enabled = enabled;
  handle = handle;
  resume = resume;
}

-- `deployedNodes.join(', ')`.
join_comma : List String → String
join_comma [] = ""
join_comma (x ∷ xs) = elim xs [ [] ↦ x | y ∷ ys ↦ x <> ", " <> join_comma xs ]

-- `img.url.split('/').pop()`.
last_part : String → List String → String
last_part before [] = before
last_part before (x ∷ xs) = last_part x xs

os_colors : List (String × String)
os_colors =
    ("Ubuntu", "bg-orange-50 border-orange-200 text-orange-700")
    ∷ ("Debian", "bg-red-50 border-red-200 text-red-700")
    ∷ []

color_of : String → List (String × String) → String
color_of os [] = "bg-slate-50 border-slate-200 text-slate-700"
color_of os ((k, c) ∷ rest) = if k == os then c else color_of os rest

-- One image: its texts, the line on the nodes that it was queued on, and its button.
pub record Row : Type 0 where
  pub color : String
  pub os : String
  pub name : String
  pub version : String
  pub file : String
  pub queued_on : Option String
  pub url_end : String
  pub disabled : Bool
  pub button : String

abbrev queued_line : Option (List String) → Option String
queued_line none = none
queued_line (some nodes) = some ("Queued on: " <> join_comma nodes)

unfoldable pub row : State → ApiImage → Row
unfolding join_comma last_part color_of os_colors split_slash decimal
row s img = record {
  color = color_of img.os os_colors;
  os = img.os;
  name = img.name;
  version = "v" <> img.version;
  file = img.id <> ".qcow2 · ~" <> decimal img.size_gb <> " GB";
  queued_on = queued_line (s.deployed img.id);
  url_end = last_part "" (split_slash img.url);
  disabled = is_deploying s img.id;
  button = if is_deploying s img.id then "Deploying..." else "Deploy to nodes";
}

pub data View : Type 0 where
  loading : View
  failed : String → View
  shown : List Row → View

abbrev page_or_error : Option String → State → View
page_or_error none s = shown (map (row s) s.images)
page_or_error (some m) s = if truthy m then failed m else shown (map (row s) s.images)

unfoldable pub view : State → View
unfolding row
view s = if s.loading then loading else page_or_error s.error s
