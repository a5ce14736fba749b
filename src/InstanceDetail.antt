-- ===== src/InstanceDetail.antt =====
-- frontend/src/pages/real/InstanceDetail.tsx: the page `RealInstanceDetail` of one instance. `id` is
-- the parameter of the route, of which the page is mounted with one. Of the metrics,
-- `cpu_pct` is the number's text.
pub mod Console
pub mod Credential
pub mod View
pub mod Sampling
pub mod Loading
use rig_stack.Prelude.{
  ℕ, suc, String, ◌==◌, Bool, true, false, ◌&&◌, not, Option, none, some, List, [], ◌∷◌, or_else,
  is_some, eqb, truthy, if◌then◌else◌,
}
use rig_stack.Client.Http.{Result, ok, err}
use rig_stack.Client.Types.{ApiInstance}
use rig_stack.Client.Endpoints.{instances_list, instances_start, instances_stop, instances_metrics}
use rig_stack.Runtime.{Out, update, Component}

pub data Tab : Type 0 where
  overview console metrics : Tab

pub record Metrics : Type 0 where
  pub cpu_pct : String
  pub ram_mb : ℕ
  pub time : String

-- The hooks of the page. `effect` is the run of the metrics effect whose `cancelled` is false, if
-- there is one, and `runs` the number of its runs so far.
pub record State : Type 0 where
  pub instance : Option ApiInstance
  pub loading : Bool
  pub tab : Tab
  pub metrics : Option Metrics
  pub metrics_loading : Bool
  pub metrics_error : Option String
  pub effect : Option ℕ
  pub runs : ℕ

abbrev pub initial : State
initial = record {
  instance = none;
  loading = true;
  tab = overview;
  metrics = none;
  metrics_loading = false;
  metrics_error = none;
  effect = none;
  runs = 0;
}

-- `sampled g` is the continuation of a request for the metrics that the run `g` of the effect made.
pub data Task : Type 0 where
  loaded started stopped : Task
  sampled : ℕ → Task

abbrev pub Reply : Task → Type 0
Reply loaded = Result (Option (List ApiInstance))
Reply started = Result (Unit {0})
Reply stopped = Result (Unit {0})
Reply (sampled g) = Result Metrics

-- `tick` is the timer of 15 s, `sample` that of 6 s.
pub data Event : Type 0 where
  tick refresh power sample : Event
  choose : Tab → Event

abbrev pub same_tab : Tab → Tab → Bool
same_tab overview overview = true
same_tab console console = true
same_tab metrics metrics = true
same_tab _ _ = false

-- `load`, which leaves `loading` alone and has no `catch`.
unfoldable pub load : State → Out State Task
load s = record {
  state = s;
  tasks = loaded ∷ [];
  sent = instances_list ∷ [];
  alerts = [];
  clipboard = [];
}

-- `list.find(i => i.id === id)`.
unfoldable pub find_instance : String → List ApiInstance → Option ApiInstance
find_instance id [] = none
find_instance id (i ∷ is) = if i.id == id then some i else find_instance id is

-- Whether the run `g` is not cancelled.
abbrev pub is_current : ℕ → Option ℕ → Bool
is_current g none = false
is_current g (some c) = eqb c g

-- The continuations of a request for the metrics.
unfoldable pub on_sampled : ℕ → State → Result Metrics → Out State Task
on_sampled g s (ok m) =
    if is_current g s.effect
    then update (record s { metrics = some m; metrics_error = none; metrics_loading = false })
    else update s
on_sampled g s (err m) =
    if is_current g s.effect
    then update (record s { metrics_error = some m; metrics_loading = false })
    else update s

-- Neither of the early returns of the page is taken.
abbrev pub is_page : State → Bool
is_page s = not s.loading && is_some s.instance

unfoldable pub enabled : State → Event → Bool
enabled s tick = true
enabled s sample = is_some s.effect
enabled s _ = is_page s

-- The button that stops a running instance and starts any other.
abbrev pub power_button : Option ApiInstance → State → Out State Task
power_button none s = update s
power_button (some i) s =
    if i.status == "running"
    then record {
      state = s;
      tasks = stopped ∷ [];
      sent = instances_stop i.id ∷ [];
      alerts = [];
      clipboard = [];
    }
    else record {
      state = s;
      tasks = started ∷ [];
      sent = instances_start i.id ∷ [];
      alerts = [];
      clipboard = [];
    }

-- A promise whose rejection is not caught, with `load` as its continuation.
abbrev pub then_load : Result (Unit {0}) → State → Out State Task
then_load (ok _) s = load s
then_load (err m) s = update s

module _ (id : String) where
  unfoldable pub on_loaded : State → Result (Option (List ApiInstance)) → Out State Task
  unfolding find_instance
  on_loaded s (ok list) =
      update (record s { instance = find_instance id (or_else list []); loading = false })
  on_loaded s (err m) = update s

  -- `fetch` of the run `g` of the effect.
  unfoldable pub fetch_metrics : ℕ → State → Out State Task
  fetch_metrics g s = record {
    state = record s { metrics_loading = true };
    tasks = sampled g ∷ [];
    sent = instances_metrics id ∷ [];
    alerts = [];
    clipboard = [];
  }

  abbrev pub sample_metrics : Option ℕ → State → Out State Task
  sample_metrics none s = update s
  sample_metrics (some g) s = fetch_metrics g s

  -- The effect after a change of `tab`: the cleanup of the last run, and a new one.
  unfoldable pub run_effect : State → Out State Task
  unfolding fetch_metrics
  run_effect s =
      if same_tab s.tab metrics && truthy id
      then fetch_metrics s.runs (record s { effect = some s.runs; runs = suc s.runs })
      else update (record s { effect = none })

  -- `setTab`: the same tab again changes nothing.
  unfoldable pub choose_tab : Tab → State → Out State Task
  unfolding run_effect
  choose_tab t s = if same_tab t s.tab then update s else run_effect (record s { tab = t })

  unfoldable pub handle : State → Event → Out State Task
  unfolding load choose_tab fetch_metrics
  handle s tick = load s
  handle s refresh = load s
  handle s power = power_button s.instance s
  handle s sample = sample_metrics s.effect s
  handle s (choose t) = choose_tab t s

  unfoldable pub resume : State → (t : Task) → Reply t → Out State Task
  unfolding on_loaded load on_sampled
  resume s loaded r = on_loaded s r
  resume s started r = then_load r s
  resume s stopped r = then_load r s
  resume s (sampled g) r = on_sampled g s r

  abbrev pub page : Component
  page = record {
    State = State;
    Event = Event;
    Task = Task;
    Reply = Reply;
    mount = load initial;
    enabled = enabled;
    handle = handle;
    resume = resume;
  }
