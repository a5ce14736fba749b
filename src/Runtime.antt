-- ===== src/Runtime.antt =====
-- How a page of the dashboard runs. React and the browser are not code of the repository; what the
-- pages use of them is this: a handler runs to its end on the state of the last render, it may call
-- `fetch`, `alert` and `setTimeout`, and the continuation of each awaited promise and timer runs
-- later, in an order that the environment chooses. A page is a `Component`; its executions are the
-- sequences of `Step`.
pub mod Invariant
use rig_stack.Prelude.{Bool, true, String, List, [], ◌∷◌, ◌++◌, ◌≡◌}
use rig_stack.Client.Http.{Request}

-- What one handler or continuation does: the new state, the continuations that it leaves waiting,
-- the requests that it sends, the dialogs that it
-- opens and the texts that it copies.
pub record Out (S T : Type 0) : Type 0 where
  pub state : S
  pub tasks : List T
  pub sent : List Request
  pub alerts : List String
  pub clipboard : List String

-- A state update and nothing else.
abbrev pub update : {S T : Type 0} → S → Out S T
update s = record { state = s; tasks = []; sent = []; alerts = []; clipboard = [] }

-- A page: `enabled` is false of an event that no element of the rendered page can cause.
pub record Component : Type 1 where
  pub State : Type 0
  pub Event : Type 0
  pub Task : Type 0
  pub Reply : Task → Type 0
  pub mount : Out State Task
  pub enabled : State → Event → Bool
  pub handle : State → Event → Out State Task
  pub resume : State → (t : Task) → Reply t → Out State Task

-- A page with all that it has started and not finished, and all that it has sent and shown.
abbrev pub World : Type 0 → Type 0 → Type 0
World S T = Out S T

abbrev pub after : {S T : Type 0} → World S T → List T → Out S T → World S T
after w waiting o = record {
  state = o.state;
  tasks = waiting ++ o.tasks;
  sent = w.sent ++ o.sent;
  alerts = w.alerts ++ o.alerts;
  clipboard = w.clipboard ++ o.clipboard;
}

module _ (c : Component) where
  -- One event of the user or the environment, or one continuation of those waiting, whichever the
  -- environment picks, with whatever reply.
  pub data Step : World c.State c.Task → World c.State c.Task → Type 0 where
    act :
        (w : World c.State c.Task) (e : c.Event)
        → c.enabled w.state e ≡ true
        → Step w (after w w.tasks (c.handle w.state e))
    settle :
        (w : World c.State c.Task) (before behind : List c.Task) (t : c.Task) (r : c.Reply t)
        → w.tasks ≡ before ++ t ∷ behind
        → Step w (after w (before ++ behind) (c.resume w.state t r))

  pub data Steps (w : World c.State c.Task) : World c.State c.Task → Type 0 where
    here : Steps w w
    next : {u v : World c.State c.Task} → Steps w u → Step u v → Steps w v

  -- The worlds that a mounted page can come to.
  abbrev pub Reach : World c.State c.Task → Type 0
  Reach = Steps c.mount
